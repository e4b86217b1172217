-- ===== src/RemoteSigner/Loop/Answered.antt =====
-- What the request loop of signer/remote_signer.go has written to its chain node.
use horcrux.Prelude.{
  Bool, true, false, List, [], ◌∷◌, none, some, ◌≡◌, refl, arith, inl, inr, Bool-cases, ◌∙◌, sym,
  ap, subst,
}
use horcrux.RemoteSigner.{
  Privval, Vote, Request, Response, signed_vote_response, handle_request_safely,
}
use horcrux.RemoteSigner.Signed.{IsSigned, handle_request_safely-IsSigned}
use horcrux.RemoteSigner.Loop.{
  Place, top, parked, dialing, connected, reading, finished, handling, writing, Loop, started,
  drop_conn, close_conn, from_top, park_tick, dialed, start_watch, read_msg, handle, write_msg,
  watch_tick, Step, tops, parks, park_ends, dials, dial_ends, watches, reads, read_fails, handles,
  writes, write_fails, watch_ticks, stops, elects, Steps, here, more,
}

module _ (p : Privval) where
  -- the response is the one of the handler, which neither dropped the request nor panicked
  abbrev pub IsAnswer : Request p → Response p → Type 0
  IsAnswer req res = handle_request_safely p req ≡ (res, false, false)

  abbrev AreAnswers : List (Request p × Response p) → Type 0
  AreAnswers [] = Unit
  AreAnswers ((req, res) ∷ answers) = IsAnswer req res × AreAnswers answers

  abbrev IsPending : Place p → Type 0
  IsPending (writing req res) = IsAnswer req res
  IsPending _ = Unit

  abbrev is_writing : Place p → Bool
  is_writing (writing req res) = true
  is_writing _ = false

  idle-IsPending : (q : Place p) → is_writing q ≡ false → IsPending q
  idle-IsPending (writing req res) h = absurd (ground arith)
  idle-IsPending top h = tt
  idle-IsPending parked h = tt
  idle-IsPending dialing h = tt
  idle-IsPending connected h = tt
  idle-IsPending reading h = tt
  idle-IsPending finished h = tt
  idle-IsPending (handling req) h = tt

  -- what a step does to the answers: nothing, it comes by one, or it writes the one it came by
  data Change (s t : Loop p) : Type 0 where
    quiet : t.answers ≡ s.answers → t.place ≡ s.place → Change s t
    moved : t.answers ≡ s.answers → is_writing t.place ≡ false → Change s t
    comes_by :
        (req : Request p) (res : Response p)
        → IsAnswer req res
        → t.answers ≡ s.answers
        → t.place ≡ writing req res
        → Change s t
    written :
        (req : Request p) (res : Response p)
        → s.place ≡ writing req res
        → t.answers ≡ (req, res) ∷ s.answers
        → is_writing t.place ≡ false
        → Change s t

  abbrev Answered : Loop p → Type 0
  Answered s = AreAnswers s.answers × IsPending s.place

  change-Answered : (s t : Loop p) → Change s t → Answered s → Answered t
  change-Answered s t (quiet a b) (h, w) = (subst AreAnswers (sym a) h, subst IsPending (sym b) w)
  change-Answered s t (moved a b) (h, w) = (subst AreAnswers (sym a) h, idle-IsPending t.place b)
  change-Answered s t (comes_by req res i a b) (h, w) =
      (subst AreAnswers (sym a) h, subst IsPending (sym b) i)
  change-Answered s t (written req res b a q) (h, w) =
      (subst AreAnswers (sym a) (subst IsPending b w, h), idle-IsPending t.place q)

  module _ (gated : Bool) where
    handle-Change : (s : Loop p) (req : Request p) → Change s (handle p gated req s)
    unfolding handle drop_conn close_conn
    handle-Change s req = elim (Bool-cases (handle_request_safely p req).1) [
      | inl d ↦ moved (ground arith) (ground arith)
      | inr d ↦ elim (Bool-cases (handle_request_safely p req).2) [
        | inl q ↦ moved (ground arith) (ground arith)
        | inr q ↦
            comes_by req (handle_request_safely p req).0 (ground arith) (ground arith)
              (ground arith)
      ]
    ]

    step-Change : (s t : Loop p) → Step p gated s t → Change s t
    unfolding from_top park_tick dialed start_watch read_msg write_msg watch_tick drop_conn
        close_conn
    step-Change s _ (tops at) = moved (ground arith) (ground arith)
    step-Change s _ (parks at) = moved (ground arith) (ground arith)
    step-Change s _ (park_ends at r) = moved (ground arith) (ground arith)
    step-Change s _ (dials connects at) = moved (ground arith) (ground arith)
    step-Change s _ (dial_ends at r) = moved (ground arith) (ground arith)
    step-Change s _ (watches at) = moved (ground arith) (ground arith)
    step-Change s _ (reads req at o) = moved (ground arith) (ground arith)
    step-Change s _ (read_fails at) = moved (ground arith) (ground arith)
    step-Change s _ (handles req at) = handle-Change s req
    step-Change s _ (writes req res at o) = written req res at (ground arith) (ground arith)
    step-Change s _ (write_fails req res at) = moved (ground arith) (ground arith)
    step-Change s _ (watch_ticks w) = quiet (ground arith) (ground arith)
    step-Change s _ stops = quiet refl refl
    step-Change s _ (elects leads) = quiet refl refl

    Steps-Answered : (leads : Bool) (s : Loop p) → Steps p gated (started p leads) s → Answered s
    Steps-Answered leads s here = (tt, tt)
    Steps-Answered leads s (more {t = t} before step) =
        change-Answered t s (step-Change t s step) (Steps-Answered leads t before)

  -- every vote among the answers is signed by the validator
  abbrev pub AllSigned : List (Request p × Response p) → Type 0
  AllSigned [] = Unit
  AllSigned ((req, res) ∷ answers) =
      ((signed : Vote p.VoteRest)
        → res ≡ signed_vote_response (some signed) none
        → IsSigned p req signed)
      × AllSigned answers

  answers-AllSigned :
      (answers : List (Request p × Response p)) → AreAnswers answers → AllSigned answers
  answers-AllSigned [] h = tt
  answers-AllSigned ((req, res) ∷ answers) (i, h) = (
    λ signed e. handle_request_safely-IsSigned p req signed (ap (λ x. x.0) i ∙ e),
    answers-AllSigned answers h,
  )

  -- Whatever the chain node, the connection and the leadership do: every signed vote that the request loop
  -- has written answers a request for a valid vote of a valid chain, and is that vote with the signatures
  -- and the time that the validator gave for its block.
  pub Steps-AllSigned :
      (gated leads : Bool) (s : Loop p) → Steps p gated (started p leads) s → AllSigned s.answers
  Steps-AllSigned gated leads s run =
      answers-AllSigned s.answers (Steps-Answered gated leads s run).0
