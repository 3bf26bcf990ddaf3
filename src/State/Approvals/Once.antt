-- ===== src/State/Approvals/Once.antt =====
-- RecordFactoryApproval of internal/state/factory_approvals.go, on its branches.
use bachkator.Base.{
  Bool, true, false, ◌||◌, Option, none, some, List, [], ◌∷◌, ◌++◌, ◌==◌, find, exists, ok, err,
  >>=-eq-ok, ◌≡◌, ◌≢◌, All, Each, arith, eq_iff, refl, subst, sym, ap, ◌∙◌, Bool-cases,
  Option-cases, inl, inr, exists-none, find-none, Each-append_one, All-weaken, ◌⊎◌, find-In, In,
  All-In, or_false,
}
use bachkator.Model.{waiting_approval}
use bachkator.State.Time.{Time, format_time}
use bachkator.State.Tables.{
  Meta, Outcome, Approval, ApprovalRow, Event, FactoryWorkItem, ItemRow, Db, commit-keeps, json,
  constraint,
}
use bachkator.State.Items.{get_item, keyed, insert_event}
use bachkator.State.Items.Loads.{get_item-IsLoaded, IsLoaded-lifecycle, IsLoaded-phase}
use bachkator.State.Enqueue.{insert_event_if}
use bachkator.State.Approvals.{
  convert_approval, approval_of, scan_approval, insert_approval, get_approval, check_waiting,
  add_approval, approve_found, approve_tx, record_approval,
}

-- No two approvals share item, attempt and phase.
abbrev pub OneApproval : List ApprovalRow → Type 0
OneApproval rows = Each (λ a b. approval_of b.work_item_id b.attempt_id b.phase a ≡ false) rows

abbrev clash : Approval Time Meta → ApprovalRow → Bool
clash a b = (b.id == a.id) || approval_of a.work_item_id a.attempt_id a.phase b

-- What an insertion that the constraints allow does.
insert_approval-eq-ok :
    (a : Approval Time Meta) (db db' : Db)
    → insert_approval a db ≡ ok db'
    → All (λ b. approval_of a.work_item_id a.attempt_id a.phase b ≡ false) db.approvals
      × (db' ≡ record db { approvals = db.approvals ++ (convert_approval format_time json a ∷ []) })
unfolding insert_approval
insert_approval-eq-ok a db db' e = elim (Bool-cases (exists (clash a) db.approvals)) [
  | inl c ↦ absurd (refused (rw c at e))
  | inr c ↦ (
    All-weaken (λ b. clash a b ≡ false) _ db.approvals (λ b off. (or_false (b.id == a.id) _ off).1)
        (exists-none (clash a) db.approvals c),
    unfold insert_approval in ground arith,
  )
]
  where
    refused : ◌≡◌ {A = Outcome Db} (err constraint) (ok db') → ⊥
    refused x = cc

approvals-insert_event_if :
    (e : Event Time Meta) (db db' : Db)
    → insert_event_if e db ≡ ok db'
    → db'.approvals ≡ db.approvals
unfolding insert_event_if insert_event
approvals-insert_event_if e db db' h = ground arith

add_approval-eq-ok :
    (a : Approval Time Meta) (event : Event Time Meta) (db db' : Db) (r : Approval Time Meta × Bool)
    → add_approval a event db ≡ ok (r, db')
    → (item : FactoryWorkItem) × (get_item a.factory a.work_item_id db ≡ ok item)
      × (check_waiting a item ≡ ok tt)
      × All (λ b. approval_of a.work_item_id a.attempt_id a.phase b ≡ false) db.approvals
      × (db'.approvals ≡ db.approvals ++ (convert_approval format_time json a ∷ []))
unfolding add_approval
add_approval-eq-ok a event db db' r e =
    let (item, got, rest) = >>=-eq-ok (get_item a.factory a.work_item_id db) _ e in
    let (u, waits, rest₁) = >>=-eq-ok (check_waiting a item) _ rest in
    let (db₁, inserted, rest₂) = >>=-eq-ok (insert_approval a db) _ rest₁ in
    let (db₂, noted, rest₃) = >>=-eq-ok (insert_event_if event db₁) _ rest₂ in
    let (loaded, got', ends) = >>=-eq-ok (get_approval a.id db₂) _ rest₃ in
    let same : db₂ ≡ db' = cc in
    let (alone, added) = insert_approval-eq-ok a db db₁ inserted in
    (
      item,
      got,
      waits,
      alone,
      sym (ap (λ (d : Db). d.approvals) same)
          ∙ approvals-insert_event_if event db₁ db₂ noted
          ∙ ap (λ (d : Db). d.approvals) added,
    )

approve_found-eq-ok :
    (a : Approval Time Meta) (event : Event Time Meta) (db db' : Db) (r : Approval Time Meta × Bool)
    (found : Option ApprovalRow)
    → approve_found a event found db ≡ ok (r, db')
    → ((x : ApprovalRow) × (found ≡ some x) × (db' ≡ db) × (r ≡ (scan_approval x, true)))
      ⊎ (add_approval a event db ≡ ok (r, db'))
unfolding approve_found
approve_found-eq-ok a event db db' r none e = inr e
approve_found-eq-ok a event db db' r (some x) e = inl (x, refl, ground arith, ground arith)

-- A request that succeeds found its approval in the table, or added it.
approve_tx-eq-ok :
    (a : Approval Time Meta) (event : Event Time Meta) (db db' : Db) (r : Approval Time Meta × Bool)
    → approve_tx a event db ≡ ok (r, db')
    → ((x : ApprovalRow) × (find (approval_of a.work_item_id a.attempt_id a.phase) db.approvals
          ≡ some x)
        × (db' ≡ db)
        × (r ≡ (scan_approval x, true)))
      ⊎ (add_approval a event db ≡ ok (r, db'))
unfolding approve_tx
approve_tx-eq-ok a event db db' r e =
    approve_found-eq-ok a event db db' r
      (find (approval_of a.work_item_id a.attempt_id a.phase) db.approvals) (ground arith)

-- After any approval, accepted or refused, no two approvals share item, attempt and phase if none
-- did before.
pub record_approval-OneApproval :
    (a : Approval Time Meta) (event : Event Time Meta) (db db' : Db)
    → OneApproval db.approvals
    → (record_approval a event (some db)).1 ≡ some db'
    → OneApproval db'.approvals
unfolding record_approval
record_approval-OneApproval a event db db' h =
    commit-keeps (λ d. OneApproval d.approvals) db db' (approve_tx a event db) h
      λ r d e. elim (approve_tx-eq-ok a event db d r e) [
        | inl (x, found, same, is) ↦ subst (λ (z : Db). OneApproval z.approvals) (sym same) h
        | inr added ↦
            let (item, got, waits, alone, new) = add_approval-eq-ok a event db d r added in
            subst OneApproval (sym new) (
              Each-append_one (λ b c. approval_of c.work_item_id c.attempt_id c.phase b ≡ false)
                db.approvals (convert_approval format_time json a) h alone)
      ]

check_waiting-eq-ok :
    (a : Approval Time Meta) (item : FactoryWorkItem)
    → check_waiting a item ≡ ok tt
    → (item.lifecycle ≡ waiting_approval) × (item.current_phase ≡ a.phase)
unfolding check_waiting
check_waiting-eq-ok a item e = ground (arith, eq_iff item.current_phase a.phase)

-- An approval that is recorded as new is of an item of the store that waits for approval at the
-- approval's phase; it is the last row of the table, and no row before it has its item, attempt
-- and phase.
pub record_approval_new :
    (a : Approval Time Meta) (event : Event Time Meta) (db db' : Db) (loaded : Approval Time Meta)
    → record_approval a event (some db) ≡ (ok (loaded, false), some db')
    → (row : ItemRow) × In row db.items
      × (keyed a.factory a.work_item_id row ≡ true)
      × (row.lifecycle ≡ waiting_approval)
      × (row.current_phase ≡ a.phase)
      × All (λ b. approval_of a.work_item_id a.attempt_id a.phase b ≡ false) db.approvals
      × (db'.approvals ≡ db.approvals ++ (convert_approval format_time json a ∷ []))
unfolding record_approval
record_approval_new a event db db' loaded h =
    elim (approve_tx-eq-ok a event db db' (loaded, false) (ground arith)) [
      | inl (x, found, same, is) ↦ cc
      | inr added ↦
          let (item, got, waits, alone, new) =
            add_approval-eq-ok a event db db' (loaded, false) added in
          let (row, m, k, read) = get_item-IsLoaded a.factory a.work_item_id db item got in
          let (waiting, at) = check_waiting-eq-ok a item waits in
          (
            row,
            m,
            k,
            IsLoaded-lifecycle db row item read ∙ waiting,
            IsLoaded-phase db row item read ∙ at,
            alone,
            new,
          )
    ]

-- Where the table has an approval of the item, the attempt and the phase, a complete request
-- returns an approval of the table as existing and changes nothing, whatever state the item is in.
record_approval_again :
    (a : Approval Time Meta) (event : Event Time Meta) (db : Db) (row : ApprovalRow)
    → In row db.approvals
    → approval_of a.work_item_id a.attempt_id a.phase row ≡ true
    → a.id ≢ ""
    → a.work_item_id ≢ ""
    → a.attempt_id ≢ ""
    → a.phase ≢ ""
    → (x : ApprovalRow) × In x db.approvals
      × (approval_of a.work_item_id a.attempt_id a.phase x ≡ true)
      × (record_approval a event (some db) ≡ (ok (scan_approval x, true), some db))
unfolding record_approval approve_tx approve_found
record_approval_again a event db row m k i w t p =
    elim (Option-cases (find (approval_of a.work_item_id a.attempt_id a.phase) db.approvals)) [
      | inl none_ ↦
          let off =
            All-In (λ b. approval_of a.work_item_id a.attempt_id a.phase b ≡ false) db.approvals
              (find-none (approval_of a.work_item_id a.attempt_id a.phase) db.approvals none_) m in
          cc (sym k ∙ off)
      | inr (x, found) ↦
          let (mx, kx) =
            find-In (approval_of a.work_item_id a.attempt_id a.phase) db.approvals x found in
          (
            x,
            mx,
            kx,
            ground (
              arith,
              eq_iff a.id "",
              eq_iff a.work_item_id "",
              eq_iff a.attempt_id "",
              eq_iff a.phase "",
            ),
          )
    ]
