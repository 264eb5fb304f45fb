-- ===== src/Server/StoreFile/Atomic.antt =====
-- What a save of packages/server/src/session-store-file.ts leaves in the files, whatever fails.
use ccctl.Base.{
  ◌≡◌, ◌≢◌, refl, sym, ◌∙◌, inl, inr, ◌⊎◌, String, true, false, not, ◌||◌, [], ◌∷◌, none, some,
  str_eq, if◌then◌else◌, Bool-cases, All, str_eq_ne,
}
use ccctl.Base.Dict.{get, set, delete, get-set, get-delete, get-set_self, get-delete_self}
use ccctl.Server.StoreFile.{
  Files, Calls, Writing, writes, fails, Save, clean_up, write_then_rename, write_snapshot,
}

get-set_other : (k j v : String) (m : Files) → str_eq k j ≡ false → get j (set k v m) ≡ get j m
get-set_other k j v m h = simp (get-set, h)

get-delete_other : (k j : String) (m : Files) → str_eq k j ≡ false → get j (delete k m) ≡ get j m
get-delete_other k j m h = simp (get-delete, h)

-- The file at `path` is, in each state that a save goes through, the one before the save or the whole new text.
abbrev pub IsOldOrNew : Files → String → String → Files → Type 0
IsOldOrNew before path text files =
    (get path files ≡ get path before) ⊎ (get path files ≡ some text)

-- What a save may do to the file at `path`, to the temporary file, and to another file `q`.
abbrev pub IsAtomic : Files → String → String → String → String → Save → Type 0
IsAtomic before path temp text q r =
    All (IsOldOrNew before path text) r.states
    × (get path r.after ≡ (if r.saved then some text else get path before))
    × ((r.saved ≡ false) ⊎ (get temp r.after ≡ none))
    × (get q r.after ≡ get q before)

module _ (before : Files) (calls : Calls) (path temp text q : String)
    (apart : str_eq temp path ≡ false) (other : str_eq temp q ≡ false)
    (not_path : str_eq path q ≡ false) where
  clean_up-IsAtomic :
      (files : Files)
      → get path files ≡ get path before
      → get q files ≡ get q before
      → IsAtomic before path temp text q (clean_up before calls temp files)
  unfolding clean_up
  clean_up-IsAtomic files p r = elim (Bool-cases calls.rm) [
    | inl e ↦
        let d = get-delete_other temp path files apart ∙ p in
        rw e
          ((inl refl, (inl p, (inl d, tt))), d, inl refl, get-delete_other temp q files other ∙ r)
    | inr e ↦ rw e ((inl refl, (inl p, (inl p, tt))), p, inl refl, r)
  ]

  set-IsAtomic :
      (left : String)
      → IsAtomic before path temp text q (clean_up before calls temp (set temp left before))
  set-IsAtomic left =
      clean_up-IsAtomic (set temp left before) (get-set_other temp path left before apart)
        (get-set_other temp q left before other)

  rename-IsAtomic :
      str_eq path temp ≡ false
      → IsAtomic before path temp text q (record {
        states =
            before ∷ set temp text before ∷ set path text (delete temp (set temp text before)) ∷ [];
        after = set path text (delete temp (set temp text before));
        saved = true;
      })
  rename-IsAtomic apart' =
      let own = get-set_self path text (delete temp (set temp text before)) in
      (
        (inl refl, (inl (get-set_other temp path text before apart), (inr own, tt))),
        own,
        inr (
            get-set_other path temp text (delete temp (set temp text before)) apart'
            ∙ get-delete_self temp (set temp text before)),
        get-set_other path q text (delete temp (set temp text before)) not_path
            ∙ get-delete_other temp q (set temp text before) other
            ∙ get-set_other temp q text before other,
      )

  write-IsAtomic :
      (w : Writing)
      → str_eq path temp ≡ false
      → IsAtomic before path temp text q (write_then_rename before calls path temp text w)
  unfolding write_then_rename
  write-IsAtomic (fails none) b = clean_up-IsAtomic before refl refl
  write-IsAtomic (fails (some left)) b = set-IsAtomic left
  write-IsAtomic writes b = elim (Bool-cases (not calls.chmod || not calls.rename)) [
    | inl e ↦ rw e (set-IsAtomic text)
    | inr e ↦ rw e (rename-IsAtomic b)
  ]

-- A save goes from the old file to the new one in one step: in each state it goes through, the file is as
-- it was or holds the whole new text. A save that succeeds leaves the new text and no temporary file, a save
-- that throws leaves the file as it was, and neither touches a file other than these two.
pub write_snapshot-IsAtomic :
    (files : Files) (calls : Calls) (path temp text q : String)
    → temp ≢ path
    → temp ≢ q
    → path ≢ q
    → IsAtomic files path temp text q (write_snapshot files calls path temp text)
unfolding write_snapshot
write_snapshot-IsAtomic files calls path temp text q a o n =
    let apart = str_eq_ne temp path a in
    let other = str_eq_ne temp q o in
    elim (Bool-cases calls.mkdir) [
      | inr e ↦ rw e ((inl refl, tt), refl, inl refl, refl)
      | inl e ↦ rw e (
          write-IsAtomic files calls path temp text q apart other (str_eq_ne path q n)
            calls.write_file (str_eq_ne path temp (λ p. a (sym p))))
    ]
