-- ===== src/Executor/PointerPages.antt =====
-- backend/app/executor_manager.py: the session pointers that a page of sessions leaves.
use pocage.Prelude.{
  String, ◌≡◌, ap, ◌∙◌, not, ◌&&◌, ◌||◌, Option, none, some, List, [], ◌∷◌, ◌==◌, filter, one_of,
  get_or, arith, eq_iff, Bool-cases, inl, inr,
}
use pocage.Text.{strip, is_nonempty}
use pocage.Dict
use pocage.Dict.{Dict, get-put}
use pocage.Executor.Answers.{RemoteSessionItem, SessionPointer}
use pocage.Executor.Pointers.{page_ids, pointer_row, write_rows, replace_rows}

has-filter :
    (rows : Dict SessionPointer) (ids : List String) (id : String)
    → Dict.has (filter (λ e. one_of e.0 ids) rows) id ≡ one_of id ids && Dict.has rows id
unfolding Dict.get
has-filter [] ids id = ground arith
has-filter ((j, row) ∷ rows) ids id = elim (Bool-cases (j == id)) [
  | inl e ↦ rw ((eq_iff j id).0 e) (ground (arith, has-filter rows ids id))
  | inr e ↦ ground (arith, has-filter rows ids id)
]

none-some : {rows : Dict SessionPointer} → none ≡ some rows → ⊥
none-some h = cc

module _ (hash_secret : String → String) (seen_at : Option String → String) where
  has-write_rows :
      (existing : List String) (rows rows' : Dict SessionPointer) (items : List RemoteSessionItem)
      (id : String)
      → write_rows hash_secret seen_at existing rows items ≡ some rows'
      → Dict.has rows' id ≡ Dict.has rows id || one_of id (page_ids items)
  unfolding write_rows page_ids
  has-write_rows existing rows rows' [] id h =
      let same_rows = ap (λ o. Dict.has (get_or o rows) id) h in ground arith
  has-write_rows existing rows rows' (item ∷ items) id h =
      let key = strip item.session_id in
      elim (Bool-cases (is_nonempty key)) [
        | inr e ↦ rw e (has-write_rows existing rows rows' items id (rw (write_rows, e) at h))
        | inl e ↦ elim (Bool-cases (Dict.has rows key && not (one_of key existing))) [
          | inl g ↦ absurd (none-some (rw (write_rows, e, g) at h))
          | inr g ↦
              let row =
                pointer_row hash_secret seen_at (some item.title) (some item.cwd) "idle"
                  (some item.updated_at) in
              let rest =
                has-write_rows existing (Dict.put rows key row) rows' items id
                  (rw (write_rows, e, g) at h) in
              rw e (ground (arith, get-put rows key id row, eq_iff key id, eq_iff id key))
        ]
      ]

  -- A page of sessions leaves the pointers of the sessions on it, and no others: also not those of
  -- the sessions that stood on another page.
  pub has-replace_rows :
      (rows rows' : Dict SessionPointer) (items : List RemoteSessionItem) (id : String)
      → replace_rows hash_secret seen_at rows items ≡ some rows'
      → Dict.has rows' id ≡ one_of id (page_ids items)
  unfolding replace_rows
  has-replace_rows rows rows' items id h =
      has-write_rows _ (filter (λ e. one_of e.0 (page_ids items)) rows) rows' items id h
      ∙ ground (arith, has-filter rows (page_ids items) id)
