-- ===== src/Scenarios/Replicated.antt =====
-- Runs of signer/raft_store.go.
use horcrux.Prelude.{
  ℕ, pos, String, string_Eq, ◌=?◌, true, ◌&&◌, List, [], ◌∷◌, Option, none, some, ◌≡◌, refl, arith,
  if◌then◌else◌, ◌==◌, insert, delete,
}
use horcrux.Outcome.{ok}
use horcrux.ChainId.{validate_chain_id}
use horcrux.SignState.{SignState, SignStateConsensus, empty_state, latest_hrs}
use horcrux.Validator.{ChainSignState}
use horcrux.Raft.{
  Command, ChainSignStateConsensus, Store, Node, RaftStore, apply_all, apply, apply_set,
  apply_delete, snapshot, restore, get,
}
use horcrux.Raft.Store.{restore-snapshot}
use horcrux.Raft.Events.{Holds, Reached}
use horcrux.Raft.Replicated.{AllReached, apply_all-AllReached}
use horcrux.Raft.Membership.{Server, cleared, clear_servers, remove_server}
use horcrux.Scenarios.{two_of_three, ready_cosigner, empty_disk}

-- The replicated state of a prevote at height 11.
abbrev eleven : SignStateConsensus
eleven = record {
  height = pos 11;
  round = pos 0;
  step = pos 2;
  signature = some (7 ∷ []);
  vote_extension_signature = none;
  sign_bytes = some (2 ∷ 11 ∷ 0 ∷ 4 ∷ 1000 ∷ []);
}

-- Entry 1 is the event of that prevote, entry 2 sets a key, entry 3 deletes it.
abbrev command_of : List ℕ → Option Command
command_of [] = none
command_of (n ∷ _) =
    if n == 1
    then some (record { op = "set"; key = "LSS"; value = "eleven" })
    else if n == 2
    then some (record { op = "set"; key = "a"; value = "1" })
    else if n == 3
    then some (record { op = "delete"; key = "a"; value = "" })
    else none

abbrev lss_of : String → Option ChainSignStateConsensus
lss_of v =
    if v =? "eleven" then some (record { chain_id = "chain-1"; consensus = eleven }) else none

-- only the store with the one entry can be written
abbrev store_bytes : Store → Option (List ℕ)
store_bytes [] = none
store_bytes ((k, v) ∷ m) = entry_bytes k v m
  where
    entry_bytes : String → String → Store → Option (List ℕ)
    entry_bytes k v [] = if (k =? "a") && (v =? "1") then some (9 ∷ []) else none
    entry_bytes k v (_ ∷ _) = none

abbrev one_entry : Store
one_entry = ("a", "1") ∷ []

abbrev bytes_store : List ℕ → Option Store
bytes_store b = some one_entry

bytes_store-store_bytes : (m : Store) (b : List ℕ) → store_bytes m ≡ some b → bytes_store b ≡ some m
bytes_store-store_bytes [] b h = absurd (ground arith)
bytes_store-store_bytes ((k, v) ∷ []) b h =
    ground (arith, string_Eq.beq_iff k "a", string_Eq.beq_iff v "1")
bytes_store-store_bytes ((k, v) ∷ e ∷ m) b h = absurd (ground arith)

abbrev node : Node
node = record {
  setup = two_of_three;
  raft_codec = record {
    marshal_command = λ c. none;
    unmarshal_command = command_of;
    marshal_lss = λ lss. none;
    unmarshal_lss = lss_of;
    marshal_store = store_bytes;
    unmarshal_store = bytes_store;
  };
  chain_id = "chain-1";
  priv_val_state_file = "state.json";
  cosigner_state_file = "share.json";
  signer_fails = none;
}

abbrev loaded_chain : ChainSignState
loaded_chain = record {
  last_sign_state = empty_state "state.json";
  last_sign_state_initiated = empty_state "/dev/null";
}

abbrev node_with : Store → RaftStore
node_with m = record {
  m = m;
  validator = record { chain_state = some loaded_chain; disk = empty_disk };
  cosigner = ready_cosigner;
}

log_run : apply_all node ((2 ∷ []) ∷ []) (node_with []) ≡ (ok tt, node_with one_entry)
unfolding apply_all apply apply_set insert
log_run = refl

delete_run : apply_all node ((3 ∷ []) ∷ []) (node_with one_entry) ≡ (ok tt, node_with [])
unfolding apply_all apply apply_delete delete
delete_run = refl

restored_run :
    apply_all node ((3 ∷ []) ∷ []) (restore node (9 ∷ []) (node_with (("b", "2") ∷ []))).1
    ≡ (ok tt, node_with [])
unfolding apply_all apply apply_delete delete restore
restored_run = refl

snapshot_run : snapshot node (node_with one_entry) ≡ ok (9 ∷ [])
unfolding snapshot
snapshot_run = refl

restore-snapshot_example :
    ((restore node (9 ∷ []) (node_with (("b", "2") ∷ []))).0 ≡ ok tt)
    × ((k : String) → get (node_with []) k ≡ get (node_with []) k)
restore-snapshot_example =
    restore-snapshot node bytes_store-store_bytes (node_with one_entry)
      (node_with (("b", "2") ∷ [])) (node_with []) (node_with []) (9 ∷ []) ((3 ∷ []) ∷ [])
      snapshot_run delete_run restored_run

is_chain : validate_chain_id "chain-1" ≡ ok tt
unfolding validate_chain_id
is_chain = refl

apply_all-AllReached_example :
    (s' : RaftStore) × (css' : ChainSignState) × (c' : SignState) × (apply_all node
        ((1 ∷ []) ∷ (2 ∷ []) ∷ [])
        (node_with [])
      ≡ (ok tt, s'))
    × Holds s' css' c'
    × AllReached node ((1 ∷ []) ∷ (2 ∷ []) ∷ []) css'.last_sign_state
    × AllReached node ((1 ∷ []) ∷ (2 ∷ []) ∷ []) c'
    × Reached (latest_hrs (empty_state "state.json")) css'.last_sign_state
    × Reached (latest_hrs (empty_state "state.json")) c'
apply_all-AllReached_example =
    apply_all-AllReached node is_chain ((1 ∷ []) ∷ (2 ∷ []) ∷ []) (node_with []) loaded_chain
      (empty_state "state.json") (record { validator_holds = refl; cosigner_holds = refl })

-- Server 2 joins from the address that server 3 had.
abbrev server : String → String → Server
server id address = record { id = id; address = address }

cleared_run :
    clear_servers
      (λ id. true)
      "2"
      "x:3"
      (server "1" "x:1" ∷ server "2" "x:2" ∷ server "3" "x:3" ∷ [])
      (server "1" "x:1" ∷ server "2" "x:2" ∷ server "3" "x:3" ∷ [])
    ≡ (cleared, server "1" "x:1" ∷ [])
unfolding clear_servers remove_server
cleared_run = refl
