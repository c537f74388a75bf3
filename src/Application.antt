-- ===== src/Application.antt =====
-- src/app/main.cc: what the program chooses when it starts: the model and the directory of its static
-- files. The environment and the file system are parameters. The rest of main constructs the parts.
use ai_chat_server.Base.{
  ◌≡◌, refl, Bool, true, Option, none, some, Bytes, List, [], ◌∷◌, ◌++◌, ◌==◌, codes, if◌then◌else◌,
  Bool-cases, inl, inr, ◌⊎◌,
}

-- What precedes the last '/'.
unfoldable pub exe_dir_in : Bytes → Option Bytes
exe_dir_in [] = none
exe_dir_in (x ∷ xs) = elim (exe_dir_in xs) [
  | some dir ↦ some (x ∷ dir)
  | none ↦ if x == b'/' then some [] else none
]

abbrev dot_or : Option Bytes → Bytes
dot_or none = codes "."
dot_or (some dir) = dir

-- OPENAI_MODEL, unless it is not set or empty.
abbrev pub configured_model : Option Bytes → Bytes
configured_model none = codes "deepseek-chat"
configured_model (some []) = codes "deepseek-chat"
configured_model (some (x ∷ xs)) = x ∷ xs

-- The candidates, for what readlink tells of the executable, if it does.
unfoldable pub candidates : Option Bytes → List Bytes
unfolding exe_dir_in
candidates none = codes "./www" ∷ []
candidates (some exe) =
    let dir = dot_or (exe_dir_in exe) in
    (dir ++ codes "/../www") ∷ (dir ++ codes "/www") ∷ codes "./www" ∷ []

module _ (is_directory : Bytes → Bool) where
  unfoldable pub first_directory : List Bytes → Bytes
  first_directory [] = codes "./www"
  first_directory (c ∷ cs) = let rest = first_directory cs in if is_directory c then c else rest

  unfoldable pub pick_static_root : Option Bytes → Bytes
  unfolding first_directory candidates
  pick_static_root exe = first_directory (candidates exe)

  first_directory_lem :
      (cs : List Bytes)
      → (is_directory (first_directory cs) ≡ true) ⊎ (first_directory cs ≡ codes "./www")
  unfolding first_directory
  first_directory_lem [] = inr refl
  first_directory_lem (c ∷ cs) = elim (Bool-cases (is_directory c)) [
    | inl there ↦ inl (rw there there)
    | inr missing ↦ rw missing (first_directory_lem cs)
  ]

  -- The directory picked for the static files is there, or it is ./www.
  pick_static_root_lem :
      (exe : Option Bytes)
      → (is_directory (pick_static_root exe) ≡ true) ⊎ (pick_static_root exe ≡ codes "./www")
  unfolding pick_static_root
  pick_static_root_lem exe = first_directory_lem (candidates exe)
