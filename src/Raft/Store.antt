-- ===== src/Raft/Store.antt =====
-- The key-value store of signer/raft_store.go against a map, with snapshots.
use horcrux.Prelude.{
  String, string_Eq, ◌=?◌, List, [], ◌∷◌, Option, none, some, ◌≡◌, refl, sym, ap, ◌∙◌, arith, ℕ,
  if◌then◌else◌, lookup-insert, lookup-delete, Option-cases, inl, inr,
}
use horcrux.Outcome.{ok, Outcome-cases, returned, failed, panicked}
use horcrux.SignState.{SignStateConsensus}
use horcrux.Raft.{
  Command, Node, RaftStore, Store, raft_event_lss, get, handle_lss_event, load_both, save_both,
  apply_set, apply_delete, apply, apply_all, snapshot, restore,
}

-- What an entry makes of a map from keys to texts, where a missing key has the empty one: `set` writes, but
-- for events of signed states; `delete` clears; an entry that is no command does nothing.
abbrev pub map_after : Option Command → (String → String) → String → String
map_after none view k = view k
map_after (some c) view k =
    if c.op =? "set"
    then (if c.key =? raft_event_lss then view k else if c.key =? k then c.value else view k)
    else (if c.op =? "delete" then (if c.key =? k then "" else view k) else view k)

get-congr : (s t : RaftStore) (k : String) → s.m ≡ t.m → get s k ≡ get t k
unfolding get
get-congr s t k h = rw h refl

module _ (node : Node) where
  open node use {raft_codec}

  abbrev pub map_after_all : List (List ℕ) → (String → String) → String → String
  map_after_all [] view = view
  map_after_all (entry ∷ log) view =
      map_after_all log (map_after (raft_codec.unmarshal_command entry) view)

  load_both-m : (s : RaftStore) → (load_both node s).1.m ≡ s.m
  unfolding load_both
  load_both-m s = ground arith

  save_both-m : (ssc : SignStateConsensus) (s : RaftStore) → (save_both node ssc s).1.m ≡ s.m
  unfolding save_both
  save_both-m ssc s = ground arith

  handle_lss_event-m : (value : String) (s : RaftStore) → (handle_lss_event node value s).1.m ≡ s.m
  unfolding handle_lss_event
  handle_lss_event-m value s = elim (Option-cases (raft_codec.unmarshal_lss value)) [
    | inl e ↦ ground arith
    | inr (lss, e) ↦ ground (arith, load_both-m s, save_both-m lss.consensus (load_both node s).1)
  ]

  apply_set-get :
      (key value : String) (s s' : RaftStore) (k : String)
      → apply_set node key value s ≡ (ok tt, s')
      → get s' k ≡ (if key =? raft_event_lss then get s k else if key =? k then value else get s k)
  unfolding apply_set get
  apply_set-get key value s s' k h =
      ground (arith, handle_lss_event-m value s, lookup-insert key k value s.m)

  apply_delete-get :
      (key : String) (s s' : RaftStore) (k : String)
      → apply_delete node key s ≡ (ok tt, s')
      → get s' k ≡ (if key =? k then "" else get s k)
  unfolding apply_delete get
  apply_delete-get key s s' k h = ground (arith, lookup-delete key k s.m)

  apply-get :
      (entry : List ℕ) (s s' : RaftStore) (k : String)
      → apply node entry s ≡ (ok tt, s')
      → get s' k ≡ map_after (raft_codec.unmarshal_command entry) (get s) k
  unfolding apply
  apply-get entry s s' k h = elim (Option-cases (raft_codec.unmarshal_command entry)) [
    | inl e ↦ ground arith
    | inr (c, e) ↦ ground (arith, apply_set-get c.key c.value s s' k, apply_delete-get c.key s s' k)
  ]

  map_after-congr :
      (c : Option Command) (v w : String → String)
      → ((k : String) → v k ≡ w k)
      → (k : String) → map_after c v k ≡ map_after c w k
  map_after-congr none v w h k = h k
  map_after-congr (some c) v w h k = ground (arith, h k)

  map_after_all-congr :
      (log : List (List ℕ)) (v w : String → String)
      → ((k : String) → v k ≡ w k)
      → (k : String) → map_after_all log v k ≡ map_after_all log w k
  map_after_all-congr [] v w h k = h k
  map_after_all-congr (entry ∷ log) v w h k =
      map_after_all-congr log (map_after (raft_codec.unmarshal_command entry) v)
        (map_after (raft_codec.unmarshal_command entry) w)
        (map_after-congr (raft_codec.unmarshal_command entry) v w h) k

  -- Where a log is applied without a panic, every key of the store reads as in the map that the entries
  -- make of the map of before.
  pub apply_all-get :
      (log : List (List ℕ)) (s s' : RaftStore)
      → apply_all node log s ≡ (ok tt, s')
      → (k : String) → get s' k ≡ map_after_all log (get s) k
  unfolding apply_all
  apply_all-get [] s s' h k = ap (λ t. get t k) (sym (ground arith))
  apply_all-get (entry ∷ log) s s' h k = elim (Outcome-cases (apply node entry s).0) [
    | failed x e ↦ absurd (ground arith)
    | panicked m e ↦ absurd (ground arith)
    | returned u e ↦
        let t : RaftStore = (apply node entry s).1 in
        apply_all-get log t s' (ground arith) k
        ∙ map_after_all-congr log (get t) (map_after (raft_codec.unmarshal_command entry) (get s))
            (λ j. apply-get entry s t j (ground arith)) k
  ]

  -- A node that restores a snapshot of another and applies the entries that follow reads every key as the
  -- other does after them, whatever it held before, where JSON reads back what it wrote.
  pub restore-snapshot :
      ((m : Store) (b : List ℕ)
        → raft_codec.marshal_store m ≡ some b
        → raft_codec.unmarshal_store b ≡ some m)
      → (s t s' t' : RaftStore) (bytes : List ℕ) (log : List (List ℕ)) → snapshot node s ≡ ok bytes
      → apply_all node log s ≡ (ok tt, s')
      → apply_all node log (restore node bytes t).1 ≡ (ok tt, t')
      → ((restore node bytes t).0 ≡ ok tt) × ((k : String) → get t' k ≡ get s' k)
  unfolding snapshot restore
  restore-snapshot json s t s' t' bytes log h p q =
      elim (Option-cases (raft_codec.marshal_store s.m)) [
        | inl e ↦ absurd (ground arith)
        | inr (b, e) ↦
            let read : raft_codec.unmarshal_store bytes ≡ some s.m =
              json s.m bytes (ground arith) in
            let t0 : RaftStore = (restore node bytes t).1 in
            let same : t0.m ≡ s.m = ground arith in
            (
              ground arith,
              λ k.
                  apply_all-get log t0 t' q k
                  ∙ map_after_all-congr log (get t0) (get s) (λ j. get-congr t0 s j same) k
                  ∙ sym (apply_all-get log s s' p k),
            )
      ]
