-- ===== src/Raft/Membership.antt =====
-- `Join` of signer/raft_store.go: the servers of the raft configuration.
use horcrux.Prelude.{
  String, string_Eq, ◌=?◌, Bool, true, false, ◌&&◌, ◌||◌, not, List, [], ◌∷◌, ◌++◌, ◌≡◌, refl,
  subst, arith, if◌then◌else◌, Bool-cases, inl, inr,
}
use horcrux.Outcome.{ok, err, message}
use horcrux.Act.{Act}

pub record Server : Type 0 where
  pub id : String
  pub address : String

abbrev pub Servers : Type 0
Servers = List Server

-- `RemoveServer` of hashicorp/raft
unfoldable pub remove_server : String → Servers → Servers
remove_server id [] = []
remove_server id (srv ∷ servers) =
    let rest = remove_server id servers in if srv.id =? id then rest else srv ∷ rest

-- whether a server has the identifier or the address
abbrev pub clashes : String → String → Server → Bool
clashes node_id addr srv = (srv.id =? node_id) || (srv.address =? addr)

-- What the loop over the servers comes to.
pub data Joining : Type 0 where
  member : Joining
  cleared : Joining
  failed : Joining

-- The loop of `Join` over the servers that it has read. `removes` is whether raft takes a removal.
unfoldable pub clear_servers :
    (removes : String → Bool) → (node_id addr : String) → Servers → Servers → Joining × Servers
unfolding remove_server
clear_servers removes node_id addr [] conf = (cleared, conf)
clear_servers removes node_id addr (srv ∷ servers) conf =
    let kept = clear_servers removes node_id addr servers conf in
    let removed = clear_servers removes node_id addr servers (remove_server srv.id conf) in
    if not (clashes node_id addr srv)
    then kept
    else if (srv.address =? addr) && (srv.id =? node_id)
    then (member, conf)
    else if removes srv.id
    then removed
    else (failed, conf)

-- `Join`, for a configuration that can be read; `adds` is whether raft takes the new voter.
unfoldable pub join_server :
    (removes : String → Bool) → (adds : Bool) → (node_id addr : String) → Act Servers (Unit {0})
join_server removes adds node_id addr conf =
    let (done, conf') = clear_servers removes node_id addr conf conf in
    elim done [
      | failed ↦ (err (message "error removing existing node"), conf')
      | member ↦ (ok tt, conf')
      | cleared ↦
          if adds
          then (ok tt, conf' ++ record { id = node_id; address = addr } ∷ [])
          else (err (message "AddVoter"), conf')
    ]

-- no server of the list has the identifier or the address
abbrev pub no_clash : String → String → Servers → Bool
no_clash node_id addr [] = true
no_clash node_id addr (srv ∷ servers) =
    not (clashes node_id addr srv) && no_clash node_id addr servers

abbrev has_server : Server → Servers → Bool
has_server srv [] = false
has_server srv (s ∷ ss) = ((s.id =? srv.id) && (s.address =? srv.address)) || has_server srv ss

-- each server that clashes is among those still to be looked at
abbrev Pending : String → String → Servers → Servers → Type 0
Pending node_id addr servers [] = Unit
Pending node_id addr servers (srv ∷ conf) =
    ((clashes node_id addr srv ≡ true) → has_server srv servers ≡ true)
    × Pending node_id addr servers conf

no_clash_lem :
    (node_id addr : String) (conf : Servers)
    → Pending node_id addr [] conf
    → no_clash node_id addr conf ≡ true
no_clash_lem node_id addr [] h = refl
no_clash_lem node_id addr (srv ∷ conf) h = elim (Bool-cases (clashes node_id addr srv)) [
  | inl e ↦ absurd (ground (arith, h.0 e))
  | inr e ↦ ground (arith, no_clash_lem node_id addr conf h.1)
]

-- the loop passes a server that does not clash
Pending-pass :
    (node_id addr : String) (srv : Server) (servers conf : Servers)
    → clashes node_id addr srv ≡ false
    → Pending node_id addr (srv ∷ servers) conf
    → Pending node_id addr servers conf
Pending-pass node_id addr srv servers [] e h = tt
Pending-pass node_id addr srv servers (s ∷ conf) e h = (
  λ k.
      ground (arith, h.0 k, string_Eq.beq_iff srv.id s.id, string_Eq.beq_iff srv.address s.address),
  Pending-pass node_id addr srv servers conf e h.1,
)

Pending-remove :
    (node_id addr : String) (srv : Server) (servers conf : Servers)
    → Pending node_id addr (srv ∷ servers) conf
    → Pending node_id addr servers (remove_server srv.id conf)
unfolding remove_server
Pending-remove node_id addr srv servers [] h = tt
Pending-remove node_id addr srv servers (s ∷ conf) h = elim (Bool-cases (s.id =? srv.id)) [
  | inl e ↦ rw e (Pending-remove node_id addr srv servers conf h.1)
  | inr e ↦ rw e (
    λ k. ground (arith, h.0 k, string_Eq.beq_iff srv.id s.id, string_Eq.beq_iff s.id srv.id),
    Pending-remove node_id addr srv servers conf h.1,
  )
]

Pending-more :
    (node_id addr : String) (srv : Server) (servers conf : Servers)
    → Pending node_id addr servers conf
    → Pending node_id addr (srv ∷ servers) conf
Pending-more node_id addr srv servers [] h = tt
Pending-more node_id addr srv servers (s ∷ conf) h =
    (λ k. ground (arith, h.0 k), Pending-more node_id addr srv servers conf h.1)

Pending-refl : (node_id addr : String) (conf : Servers) → Pending node_id addr conf conf
Pending-refl node_id addr [] = tt
Pending-refl node_id addr (srv ∷ conf) = (
  λ k. ground (arith, string_Eq.beq_iff srv.id srv.id, string_Eq.beq_iff srv.address srv.address),
  Pending-more node_id addr srv conf conf (Pending-refl node_id addr conf),
)

clear_servers-no_clash :
    (removes : String → Bool) (node_id addr : String) (servers conf conf' : Servers)
    → Pending node_id addr servers conf
    → clear_servers removes node_id addr servers conf ≡ (cleared, conf')
    → no_clash node_id addr conf' ≡ true
unfolding clear_servers
clear_servers-no_clash removes node_id addr [] conf conf' p h =
    subst (λ c. no_clash node_id addr c ≡ true) (ground arith) (no_clash_lem node_id addr conf p)
clear_servers-no_clash removes node_id addr (srv ∷ servers) conf conf' p h =
    elim (Bool-cases (clashes node_id addr srv)) [
      | inr e ↦
          clear_servers-no_clash removes node_id addr servers conf conf'
            (Pending-pass node_id addr srv servers conf e p) (ground arith)
      | inl e ↦
          clear_servers-no_clash removes node_id addr servers (remove_server srv.id conf) conf'
            (Pending-remove node_id addr srv servers conf p) (ground arith)
    ]

-- A join that adds a server leaves no other one with its identifier or its address.
pub join_server-no_clash :
    (removes : String → Bool) (node_id addr : String) (conf conf' : Servers)
    → clear_servers removes node_id addr conf conf ≡ (cleared, conf')
    → (no_clash node_id addr conf' ≡ true)
      × (join_server removes true node_id addr conf
          ≡ (ok tt, conf' ++ record { id = node_id; address = addr } ∷ []))
unfolding join_server
join_server-no_clash removes node_id addr conf conf' h = (
  clear_servers-no_clash removes node_id addr conf conf conf' (Pending-refl node_id addr conf) h,
  ground arith,
)
