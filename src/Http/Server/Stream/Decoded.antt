-- ===== src/Http/Server/Stream/Decoded.antt =====
-- What a client decodes from an agent's stream.
use ai_chat_server.Base.{
  join, join-append, ℕ, suc, ◌^◌, ◌<◌, ◌≡◌, refl, sym, ap, ◌∙◌, Bool, true, false, some, Bytes,
  List, [], ◌∷◌, ◌++◌, length, if◌then◌else◌, arith, append_assoc, append-nil, is_empty, codes,
}
use ai_chat_server.Http.Chunked.{to_chunk, last_chunk, make_sse_event}
use ai_chat_server.Http.Chunked.Decode.{dechunk, chunked, AllPayloads, dechunk-chunked}
use ai_chat_server.Http.Server.{Action, send, shutdown, closing}
use ai_chat_server.Http.Server.Stream.{
  stream_head, DumpMessage, AgentRun, send_pieces, agent_error, agent_status, finish_agent,
  handle_agent_stream,
}

-- All bytes that a list of actions sends.
unfoldable pub sent : List Action → Bytes
sent [] = []
sent (send bytes ∷ more) = bytes ++ sent more
sent (shutdown ∷ more) = sent more

sent-append : (more bs : List Action) → sent (more ++ bs) ≡ sent more ++ sent bs
unfolding sent
sent-append [] bs = refl
sent-append (send bytes ∷ more) bs = simp (sent-append more bs, append_assoc)
sent-append (shutdown ∷ more) bs = sent-append more bs

-- The payloads of the stream: the opening event, the pieces that are not empty, and the error
-- event if the agent failed.
kept : List Bytes → List Bytes
kept [] = []
kept (p ∷ ps) = let rest = kept ps in if is_empty p then rest else p ∷ rest

error_events : DumpMessage → AgentRun → List Bytes
error_events dump run = if run.success then [] else agent_error dump run.error ∷ []

payloads : DumpMessage → AgentRun → List Bytes
payloads dump run = agent_status dump ∷ (kept run.pieces ++ error_events dump run)

chunks : List Bytes → Bytes
chunks [] = []
chunks (p ∷ ps) = to_chunk p ++ chunks ps

chunks-append : (ps qs : List Bytes) → chunks (ps ++ qs) ≡ chunks ps ++ chunks qs
unfolding chunks
chunks-append [] qs = refl
chunks-append (p ∷ ps) qs = simp (chunks-append ps qs, append_assoc)

chunked-chunks : (ps : List Bytes) → chunked ps ≡ chunks ps ++ last_chunk
unfolding chunks
chunked-chunks [] = refl
chunked-chunks (p ∷ ps) = simp (chunked-chunks ps, append_assoc)

sent-send_pieces : (ps : List Bytes) → sent (send_pieces ps) ≡ chunks (kept ps)
unfolding sent send_pieces chunks kept is_empty
sent-send_pieces [] = refl
sent-send_pieces ([] ∷ ps) = sent-send_pieces ps
sent-send_pieces ((x ∷ xs) ∷ ps) = ap (λ l. to_chunk (x ∷ xs) ++ l) (sent-send_pieces ps)

sent-closing : (close : Bool) → sent (closing close) ≡ []
unfolding sent
sent-closing true = refl
sent-closing false = refl

sent-finish_agent :
    (dump : DumpMessage) (run : AgentRun)
    → sent (finish_agent dump run) ≡ chunks (error_events dump run)
unfolding finish_agent error_events
sent-finish_agent dump run = go run.success
  where
    go :
        (b : Bool)
        → sent (if b then [] else send (to_chunk (agent_error dump run.error)) ∷ [])
          ≡ chunks (if b then [] else agent_error dump run.error ∷ [])
    go true = unfold sent chunks in refl
    go false = unfold sent chunks in refl

sent-handle_agent_stream :
    (dump : DumpMessage) (close : Bool) (run : AgentRun)
    → sent (handle_agent_stream dump close run) ≡ stream_head close ++ chunked (payloads dump run)
unfolding handle_agent_stream payloads
sent-handle_agent_stream dump close run =
    unfold sent in
    rw
      (
        sent-append (send_pieces run.pieces)
            (finish_agent dump run ++ (send last_chunk ∷ closing close)),
        sent-append (finish_agent dump run) (send last_chunk ∷ closing close),
        sent-send_pieces run.pieces,
        sent-finish_agent dump run,
        sent-closing close,
        chunked-chunks (kept run.pieces ++ error_events dump run),
        chunks-append (kept run.pieces) (error_events dump run),
      )
      (simp append_assoc)

join-kept : (ps : List Bytes) → join (kept ps) ≡ join ps
unfolding kept is_empty
join-kept [] = refl
join-kept ([] ∷ ps) = join-kept ps
join-kept ((x ∷ xs) ∷ ps) = ap (λ l. (x ∷ xs) ++ l) (join-kept ps)

-- Texts that a 64-bit machine can hold.
abbrev pub AllSized : List Bytes → Type 0
AllSized [] = Unit {0}
AllSized (p ∷ ps) = (length p < 2 ^ 64) × AllSized ps

kept-AllPayloads : (ps : List Bytes) → AllSized ps → AllPayloads (kept ps)
unfolding kept is_empty
kept-AllPayloads [] s = tt
kept-AllPayloads ([] ∷ ps) (_, s) = kept-AllPayloads ps s
kept-AllPayloads ((x ∷ xs) ∷ ps) (sized, s) = (omega arith, sized, kept-AllPayloads ps s)

event-solid : (name dump : Bytes) → 0 < length (make_sse_event name dump)
unfolding make_sse_event
event-solid name dump = omega arith

AllPayloads-append : (ps qs : List Bytes) → AllPayloads ps → AllPayloads qs → AllPayloads (ps ++ qs)
AllPayloads-append [] qs a b = b
AllPayloads-append (p ∷ ps) qs (solid, sized, a) b = (solid, sized, AllPayloads-append ps qs a b)

-- The error event, or nothing after a run that succeeded.
pub error_text : DumpMessage → AgentRun → Bytes
error_text dump run = if run.success then [] else agent_error dump run.error

join-error_events :
    (dump : DumpMessage) (run : AgentRun) → join (error_events dump run) ≡ error_text dump run
unfolding error_events error_text
join-error_events dump run = go run.success
  where
    go :
        (b : Bool)
        → join (if b then [] else agent_error dump run.error ∷ [])
          ≡ (if b then [] else agent_error dump run.error)
    go true = refl
    go false = append-nil (agent_error dump run.error)

error_events-AllPayloads :
    (dump : DumpMessage) (run : AgentRun)
    → length (agent_error dump run.error) < 2 ^ 64
    → AllPayloads (error_events dump run)
unfolding error_events
error_events-AllPayloads dump run sized = go run.success
  where
    go : (b : Bool) → AllPayloads (if b then [] else agent_error dump run.error ∷ [])
    go true = tt
    go false = (unfold agent_error in (event-solid (codes "error") _), sized, tt)

-- Whatever pieces of fewer than 2 ^ 64 bytes the agent hands over, empty ones among them, and
-- with events of that size, a client that reads the head of the
-- stream and decodes the chunks behind it gets the opening event, the pieces joined and, after a
-- failure, the error event, and the stream ends there.
pub dechunk-handle_agent_stream :
    (dump : DumpMessage) (close : Bool) (run : AgentRun)
    → AllSized (agent_status dump ∷ agent_error dump run.error ∷ run.pieces)
    → (body : Bytes) × (rounds : ℕ) × (sent (handle_agent_stream dump close run)
        ≡ stream_head close ++ body)
      × (dechunk rounds body
          ≡ some (agent_status dump ++ (join run.pieces ++ error_text dump run), []))
unfolding payloads
dechunk-handle_agent_stream dump close run (status, (error, pieces)) =
    let ps = payloads dump run in
    let all : AllPayloads ps = (
      unfold agent_status in (event-solid (codes "status") _),
      status,
      AllPayloads-append (kept run.pieces) (error_events dump run)
          (kept-AllPayloads run.pieces pieces) (error_events-AllPayloads dump run error),
    ) in
    let text : join ps ≡ agent_status dump ++ (join run.pieces ++ error_text dump run) =
      rw
        (
          join-append (kept run.pieces) (error_events dump run),
          join-kept run.pieces,
          join-error_events dump run,
        )
        refl in
    (
      chunked ps,
      suc (length ps),
      sent-handle_agent_stream dump close run,
      ap (dechunk (suc (length ps))) (sym (append-nil (chunked ps)))
          ∙ dechunk-chunked (suc (length ps)) ps [] (omega arith) all
          ∙ ap (λ t. some (t, [])) text,
    )
