-- ===== src/Historian/Recovery.antt =====
-- The recovery protocol: how a node leaves and regains the synchronised state.
use nf_sdk.Base.{
  ℕ, ◌≡◌, refl, ◌∙◌, Bool, true, false, Option, none, some, List, [], ◌∷◌, Text, text_eq, is_empty,
  lookup, lookup-insert, if◌then◌else◌, arith, inl, inr, Bool-cases,
}
use nf_sdk.Historian.Metric.{Floats, Metric, Run, ok, panic, ◌>>=◌}
use nf_sdk.Historian.Node.{Node, Tx, not_begun, rolled_back, committed, is_good, Sys, put_node}
use nf_sdk.Historian.Insert.{log_all, log_one, log_name, slice36, store_data}
use nf_sdk.Historian.Track.{check_node, after_check, ask_again}
use nf_sdk.Historian.Broker.{complete_recovery}

-- The position that is stored for each node after data of node `id` with number `seq`.
abbrev pub stored_after : Tx → Bool → Text → ℕ → Text → Option ℕ → Option ℕ
stored_after committed true id seq j old = if text_eq id j then some seq else old
stored_after _ _ id seq j old = old

module _ (floats : Floats) where
  -- Rounds of the watcher, each with whether its request went out and a fresh identifier.
  unfoldable pub check_rounds : List (Bool × Text) → Node → Node
  check_rounds [] n = n
  check_rounds ((published, uuid) ∷ rest) n = check_rounds rest (check_node floats published uuid n)

  check_keeps_id :
      (published : Bool) (uuid : Text) (n : Node)
      → is_empty n.recovery_id ≡ false
      → (check_node floats published uuid n).recovery_id ≡ n.recovery_id
  unfolding check_node after_check ask_again
  check_keeps_id published uuid n h = ground arith

  check_keeps_out :
      (published : Bool) (uuid : Text) (n : Node)
      → is_good n.state ≡ false
      → is_good (check_node floats published uuid n).state ≡ false
  unfolding check_node after_check ask_again
  check_keeps_out published uuid n h = ground arith

  rounds_keep_id :
      (rounds : List (Bool × Text)) (n : Node)
      → is_empty n.recovery_id ≡ false
      → (check_rounds rounds n).recovery_id ≡ n.recovery_id
  unfolding check_rounds
  rounds_keep_id [] n h = refl
  rounds_keep_id ((b, u) ∷ rest) n h =
      let same = check_keeps_id b u n h in
      rounds_keep_id rest (check_node floats b u n) (rw same h) ∙ same

  rounds_keep_out :
      (rounds : List (Bool × Text)) (n : Node)
      → is_good n.state ≡ false
      → is_good (check_rounds rounds n).state ≡ false
  unfolding check_rounds
  rounds_keep_out [] n h = h
  rounds_keep_out ((b, u) ∷ rest) n h =
      rounds_keep_out rest (check_node floats b u n) (check_keeps_out b u n h)

  -- A node that asked under an identifier, however many rounds ago, is synchronised by the answer
  -- with that identifier and by no other answer.
  pub answer_completes :
      (rounds : List (Bool × Text)) (n : Node) (uuid : Text)
      → is_empty n.recovery_id ≡ false
      → is_good n.state ≡ false
      → is_good (complete_recovery floats (some uuid) (check_rounds rounds n)).state
        ≡ text_eq n.recovery_id uuid
  unfolding complete_recovery
  answer_completes rounds n uuid h out =
      ground (arith, rounds_keep_id rounds n h, rounds_keep_out rounds n out)

  log_one-lgsns :
      (only : Bool) (id device : Text) (m : Metric floats) (name : Option Text) (s s' : Sys floats)
      → log_one floats only id device m name s ≡ ok s'
      → (s'.lgsns ≡ s.lgsns) × (s'.nodes ≡ s.nodes)
  unfolding log_one slice36
  log_one-lgsns only id device m none s s' h = ground arith
  log_one-lgsns only id device m (some name) s s' h = ground arith

  run_keeps :
      (r : Run (Sys floats)) (f : Sys floats → Run (Sys floats)) (s s' : Sys floats)
      → ((t : Sys floats) → r ≡ ok t → (t.lgsns ≡ s.lgsns) × (t.nodes ≡ s.nodes))
      → ((t : Sys floats) → f t ≡ ok s' → (s'.lgsns ≡ t.lgsns) × (s'.nodes ≡ t.nodes))
      → (r >>= f) ≡ ok s'
      → (s'.lgsns ≡ s.lgsns) × (s'.nodes ≡ s.nodes)
  run_keeps (panic p) f s s' first rest k = cc
  run_keeps (ok t) f s s' first rest k =
      let a = first t refl in let b = rest t k in (b.0 ∙ a.0, b.1 ∙ a.1)

  log_all-lgsns :
      (only : Bool) (id device : Text) (ms : List (Metric floats)) (s s' : Sys floats)
      → log_all floats only id device ms s ≡ ok s'
      → (s'.lgsns ≡ s.lgsns) × (s'.nodes ≡ s.nodes)
  unfolding log_all
  log_all-lgsns only id device [] s s' h = ground arith
  log_all-lgsns only id device (m ∷ ms) s s' h =
      run_keeps (log_one floats only id device m (log_name floats s id device m) s)
        (λ t. log_all floats only id device ms t) s s'
        (λ t e. log_one-lgsns only id device m (log_name floats s id device m) s t e)
        (λ t k. log_all-lgsns only id device ms t s' k) h

  -- Data moves the stored position only of its own node, only in a committed transaction, and only
  -- while that node is synchronised.
  pub store_data-lgsns :
      (tx : Tx) (id device : Text) (ms : List (Metric floats)) (seq : ℕ) (n : Node)
      (s s' : Sys floats)
      → store_data floats tx id device ms seq n s ≡ ok s'
      → (j : Text)
      → lookup j s'.lgsns ≡ stored_after tx (is_good n.state) id seq j (lookup j s.lgsns)
  unfolding store_data put_node
  store_data-lgsns not_begun id device ms seq n s s' h j =
      rw ((log_all-lgsns false id device ms _ s' h).0)
  store_data-lgsns rolled_back id device ms seq n s s' h j =
      rw ((log_all-lgsns false id device ms _ s' h).0)
  store_data-lgsns committed id device ms seq n s s' h j = elim (Bool-cases (is_good n.state)) [
    | inl on ↦ rw ((log_all-lgsns true id device ms _ s' h).0, on) (lookup-insert id j seq s.lgsns)
    | inr off ↦ rw ((log_all-lgsns true id device ms _ s' h).0, off)
  ]
