-- ===== src/Cosigner/Interleave/Invariant.antt =====
-- What holds of the sign state and of every request, however the steps are interleaved.
use horcrux.Prelude.{
  ℕ, ◌==◌, Bytes, contents, true, false, ◌≡◌, refl, sym, ap, subst, ◌∙◌, ◌⊎◌, inl, inr, arith, List,
  [], ◌∷◌, some, Bool-cases, lookup, bytes_equal_iff, Option-cases,
}
use horcrux.Outcome.{Error, ok, err, same_hrs}
use horcrux.Hrs.{HrsKey, HrstKey, hrs_key, greater_than, hrs_Eq}
use horcrux.Hrs.Order.{greater_than_trans, greater_than_irrefl}
use horcrux.Payload.{Codec}
use horcrux.Payload.Laws.{Compatible}
use horcrux.SignState.{
  SignState, SignStateConsensus, SignCache, consensus_key, latest_hrs, block_double_sign, advance,
  get_from_cache,
}
use horcrux.SignState.Watermark.{block_double_sign_lem}
use horcrux.SignState.Cache.{lookup-advance}
use horcrux.SignState.Disk.{signal}
use horcrux.Cosigner.Local.{Setup, reuse, reuse_cached}
use horcrux.Cosigner.Interleave.{
  Request, waiting, admitted, conflicted, released, System, update, saved,
}

abbrev pub History : Type 0
History = List (HrsKey × Bytes)

abbrev pub InHistory : HrsKey → Bytes → History → Type 0
InHistory k a [] = ⊥
InHistory k a ((j, b) ∷ h) = ((j ≡ k) × (b ≡ a)) ⊎ InHistory k a h

abbrev pub AllBelow : HrsKey → History → Type 0
AllBelow k [] = Unit
AllBelow k ((j, b) ∷ h) = (greater_than k j ≡ true) × AllBelow k h

abbrev pub Descending : History → Type 0
Descending [] = Unit
Descending ((k, a) ∷ h) = AllBelow k h × Descending h

AllBelow-trans :
    (j k : HrsKey) (h : History) → greater_than k j ≡ true → AllBelow j h → AllBelow k h
AllBelow-trans j k [] g b = tt
AllBelow-trans j k ((i, a) ∷ h) g b = (greater_than_trans k j i g b.0, AllBelow-trans j k h g b.1)

not-InHistory : (k : HrsKey) (a : Bytes) (h : History) → AllBelow k h → InHistory k a h → ⊥
not-InHistory k a [] b m = m
not-InHistory k a ((j, x) ∷ h) b (inl (e, f)) = cc (greater_than_irrefl j, b.0, e)
not-InHistory k a ((j, x) ∷ h) b (inr m) = not-InHistory k a h b.1 m

-- A height, round and step has one payload in the history.
pub InHistory-unique :
    (k : HrsKey) (a b : Bytes) (h : History)
    → Descending h
    → InHistory k a h
    → InHistory k b h
    → a ≡ b
InHistory-unique k a b [] d m n = absurd m
InHistory-unique k a b ((j, x) ∷ h) d (inl (_, e)) (inl (_, f)) = sym e ∙ f
InHistory-unique k a b ((j, x) ∷ h) d (inl (e, _)) (inr n) =
    absurd (not-InHistory k b h (subst (λ i. AllBelow i h) e d.0) n)
InHistory-unique k a b ((j, x) ∷ h) d (inr m) (inl (e, _)) =
    absurd (not-InHistory k a h (subst (λ i. AllBelow i h) e d.0) m)
InHistory-unique k a b ((j, x) ∷ h) d (inr m) (inr n) = InHistory-unique k a b h d.1 m n

-- The payload is compatible with the one of its height, round and step in the history.
pub record Justified (c : Codec) (h : History) (k : HrsKey) (b : Bytes) : Type 0 where
  pub stored : Bytes
  pub in_history : InHistory k stored h
  pub compatible : Compatible c k.step stored b

-- what holds of a request while the watermark is `latest`
abbrev pub Holds : Codec → History → HrsKey → Request → Type 0
Holds c h latest waiting = Unit
Holds c h latest (admitted hrst b) = Unit
Holds c h latest (conflicted hrst b) = greater_than (hrs_key hrst) latest ≡ false
Holds c h latest (released k b) = Justified c h k b

abbrev pub CacheIn : History → SignCache → Type 0
CacheIn h cache =
    (k : HrsKey) (x : SignStateConsensus) → lookup k cache ≡ some x → InHistory k x.sign_bytes h

pub record Inv (c : Codec) (t : System) : Type 0 where
  pub rest : History
  pub at_watermark : t.history ≡ (latest_hrs t.state, t.state.sign_bytes) ∷ rest
  pub descending : Descending t.history
  pub cached : CacheIn t.history t.state.cache
  pub holds : (i : ℕ) → Holds c t.history (latest_hrs t.state) (t.requests i)

pub Holds-update :
    (c : Codec) (h : History) (latest : HrsKey) (f : ℕ → Request) (i : ℕ) (p : Request)
    → ((j : ℕ) → Holds c h latest (f j))
    → Holds c h latest p
    → (j : ℕ) → Holds c h latest (update f i p j)
Holds-update c h latest f i p all new j = elim (Bool-cases (i == j)) [
  | inl e ↦ rw e new
  | inr e ↦ rw e (all j)
]

not_greater_after :
    (k latest new : HrsKey)
    → greater_than new latest ≡ true
    → greater_than k latest ≡ false
    → greater_than k new ≡ false
not_greater_after k latest new up below = elim (Bool-cases (greater_than k new)) [
  | inl e ↦ cc (greater_than_trans k new latest e up)
  | inr e ↦ e
]

-- what holds of a request goes on holding when the watermark moves up
pub Holds-later :
    (c : Codec) (h : History) (latest new : HrsKey) (b : Bytes) (p : Request)
    → greater_than new latest ≡ true
    → Holds c h latest p
    → Holds c ((new, b) ∷ h) new p
Holds-later c h latest new b waiting up q = tt
Holds-later c h latest new b (admitted hrst x) up q = tt
Holds-later c h latest new b (conflicted hrst x) up q =
    not_greater_after (hrs_key hrst) latest new up q
Holds-later c h latest new b (released k x) up q = record {
  stored = q.stored;
  in_history = inr q.in_history;
  compatible = q.compatible;
}

AllBelow-watermark :
    (k latest : HrsKey) (b : Bytes) (h rest : History)
    → h ≡ (latest, b) ∷ rest
    → Descending h
    → greater_than k latest ≡ true
    → AllBelow k h
AllBelow-watermark k latest b h rest e d up =
    let d' : Descending ((latest, b) ∷ rest) = subst Descending e d in
    subst (AllBelow k) (sym e) (up, AllBelow-trans latest k rest up d'.0)

pub block_double_sign-ok :
    (s s' copy : SignState) (ssc : SignStateConsensus)
    → block_double_sign s ssc ≡ ok (s', copy)
    → (greater_than (consensus_key ssc) (latest_hrs s) ≡ true) × (s' ≡ advance s ssc)
block_double_sign-ok s s' copy ssc h =
    (ground (arith, block_double_sign_lem s ssc), ground (arith, block_double_sign_lem s ssc))

pub block_double_sign-same :
    (s : SignState) (ssc : SignStateConsensus) (k : HrsKey)
    → block_double_sign s ssc ≡ err (same_hrs k)
    → greater_than (consensus_key ssc) (latest_hrs s) ≡ false
block_double_sign-same s ssc k h = ground (arith, block_double_sign_lem s ssc)

module _ {c : Codec} where
  -- a step that leaves the sign state alone
  pub Inv-requests :
      (t : System) (i : ℕ) (p : Request)
      → Inv c t
      → Holds c t.history (latest_hrs t.state) p
      → Inv c (record t { requests = update t.requests i p })
  Inv-requests t i p inv new = record {
    rest = inv.rest;
    at_watermark = inv.at_watermark;
    descending = inv.descending;
    cached = inv.cached;
    holds = Holds-update c t.history (latest_hrs t.state) t.requests i p inv.holds new;
  }

  -- a step that moves the watermark
  pub Inv-saved :
      (t : System) (requests : ℕ → Request) (ssc : SignStateConsensus)
      → greater_than (consensus_key ssc) (latest_hrs t.state) ≡ true
      → Inv c t
      → ((i : ℕ)
          → Holds c
              ((consensus_key ssc, ssc.sign_bytes) ∷ t.history)
              (consensus_key ssc)
              (requests i))
      → Inv c (saved (record t { requests = requests }) (advance t.state ssc) ssc)
  unfolding advance signal
  Inv-saved t requests ssc up inv new = record {
    rest = t.history;
    at_watermark = refl;
    descending = (
      AllBelow-watermark (consensus_key ssc) (latest_hrs t.state) t.state.sign_bytes t.history
          inv.rest inv.at_watermark inv.descending up,
      inv.descending,
    );
    cached = λ k x found. elim (lookup-advance t.state ssc x k found) [
      | inl (e, f) ↦ inl (e, sym (ap (λ (y : SignStateConsensus). y.sign_bytes) f))
      | inr old ↦ inr (inv.cached k x old)
    ];
    holds = new;
  }

-- the payload at the watermark is in the history
pub watermark-InHistory :
    (c : Codec) (t : System) → Inv c t → InHistory (latest_hrs t.state) t.state.sign_bytes t.history
watermark-InHistory c t inv =
    subst (InHistory (latest_hrs t.state) t.state.sign_bytes) (sym inv.at_watermark)
      (inl (refl, refl))

pub reuse_cached-ok :
    (setup : Setup) (e : Error) (s : SignState) (hrst : HrstKey) (sign_bytes share : Bytes)
    → reuse_cached setup e s hrst sign_bytes ≡ ok (reuse share)
    → (x : SignStateConsensus) × (lookup (hrs_key hrst) s.cache ≡ some x)
      × (contents x.sign_bytes ≡ contents sign_bytes)
unfolding reuse_cached get_from_cache
reuse_cached-ok setup e s hrst sign_bytes share h =
    elim (Option-cases (lookup (hrs_key hrst) s.cache)) [
      | inl f ↦ absurd (ground arith)
      | inr (x, f) ↦ (x, f, (bytes_equal_iff x.sign_bytes sign_bytes).0 (ground arith))
    ]
