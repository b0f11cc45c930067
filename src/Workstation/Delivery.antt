-- ===== src/Workstation/Delivery.antt =====
-- Which responses the workstation hands to a request, over any interleaving of its background thread with
-- the requests of a test, one request at a time.
use mathlib.Core.List.{Memᴰ}
use mathlib.Core.List.Memᴰ
use bacnet_profile_example_b.Base.{
  ℕ, Bool, true, false, Option, none, some, List, [], ◌∷◌, ◌++◌, ◌≡◌, refl, sym, subst, ap, ◌∙◌,
  inl, inr, Bool-cases, All, All-append, All-map, arith, ==_iff, ◌≢◌,
}
use bacnet_profile_example_b.Python.{Octets, Result, ok}
use bacnet_profile_example_b.Python.Ends.{Ends-ok, returns, Ends-bind, Ends-raising}
use bacnet_profile_example_b.Codec.Frame.{Frame, is_type, invoke_id}
use bacnet_profile_example_b.Codec.Frame.Totality.{invoke_id-Total}
use bacnet_profile_example_b.Client.{next_invoke_id}
use bacnet_profile_example_b.Workstation.{
  Workstation, new_workstation, is_response, handle, without_answers, begin, taken, take_response,
}
use bacnet_profile_example_b.Workstation.Handling.{Finishes, handle-Handled}

-- The workstation, the invoke id of the request under way, if any, and the frames that arrived since it began.
pub record Session : Type 0 where
  pub workstation : Workstation
  pub waiting : Option ℕ
  pub since : List Frame

-- The lock makes each of these one step.
pub data Step : Session → Session → Type 0 where
  arrives :
      (s : Session) (frame : Frame) (w : Workstation) (datagram : Option Octets)
      → handle s.workstation frame ≡ ok (w, datagram)
      → Step s (record s { workstation = w; since = s.since ++ frame ∷ [] })
  begins :
      (s : Session) (n : ℕ) (w : Workstation)
      → begin s.workstation ≡ ok (n, w)
      → Step s (record { workstation = w; waiting = some n; since = [] })
  takes :
      (s : Session) (n : ℕ) (frame : Frame) (w : Workstation)
      → s.waiting ≡ some n
      → take_response n s.workstation ≡ ok (some frame, w)
      → Step s (record s { workstation = w; waiting = none })
  gives_up : (s : Session) → Step s (record s { waiting = none })

pub data Reach (s : Session) : Session → Type 0 where
  here : Reach s s
  next : {t u : Session} → Reach s t → Step t u → Reach s u

abbrev pub started : Bool → Session
started answer_notifications = record {
  workstation = new_workstation answer_notifications;
  waiting = none;
  since = [];
}

-- A response that has the id of the request under way arrived since the request began.
abbrev OnTime : Option ℕ → List Frame → Frame → Type 0
OnTime waiting since frame =
    (is_response frame ≡ true)
    × ((n : ℕ) → waiting ≡ some n → invoke_id frame ≡ ok (some n) → Memᴰ frame since)

abbrev IsCurrent : Session → Type 0
IsCurrent s = All (OnTime s.waiting s.since) s.workstation.responses

own_is : (own : Option ℕ) (n : ℕ) → is_type own n ≡ true → own ≡ some n
own_is none n e = ground (arith, e)
own_is (some k) n e = ap some ((==_iff k n).0 e)

not_own : (own : Option ℕ) (n : ℕ) → is_type own n ≡ false → own ≢ some n
not_own none n e same = ground (arith, same)
not_own (some k) n e same = ground (arith, e, same, ==_iff k n)

ok_of : {r : Result (Option ℕ)} {a b : Option ℕ} → r ≡ ok a → r ≡ ok b → b ≡ a
ok_of has e = ground (arith, has, e)

module _ (n : ℕ) (P : Frame → Type 0) where
  -- What is left has another id.
  without_answers-All :
      (responses : List Frame)
      → All P responses
      → Finishes
          (All (λ frame. P frame × ¬ (invoke_id frame ≡ ok (some n))))
          (without_answers n responses)
  unfolding without_answers
  without_answers-All [] h = returns tt
  without_answers-All (frame ∷ responses) (h, hs) =
      Ends-bind (Ends-raising (invoke_id-Total frame) (λ e k. tt)) λ own e k.
        Ends-bind (without_answers-All responses hs) λ rest e' all.
          elim (Bool-cases (is_type own n)) [
            | inl same ↦ rw same (returns all)
            | inr other ↦ rw other (returns ((h, λ has. not_own own n other (ok_of has e)), all))
          ]

  -- What is taken was there and has the id.
  taken-All :
      (responses : List Frame)
      → All P responses
      → Finishes
          (λ (found, rest).
            All P rest
            × ((frame : Frame) → found ≡ some frame → P frame × (invoke_id frame ≡ ok (some n))))
          (taken n responses)
  unfolding taken
  taken-All [] h = returns (tt, λ frame e. cc)
  taken-All (frame ∷ responses) (h, hs) =
      Ends-bind (Ends-raising (invoke_id-Total frame) (λ e k. tt)) λ own e k.
        elim (Bool-cases (is_type own n)) [
          | inl same ↦ rw same (
              returns (
                hs,
                λ f e'.
                    subst (λ x. P x × (invoke_id x ≡ ok (some n))) (ground (arith, e'))
                      (h, e ∙ ap ok (own_is own n same)),
              ))
          | inr other ↦
              rw other (
                Ends-bind (taken-All responses hs) λ r e' (rest, found). returns ((h, rest), found))
        ]

abbrev IsResponse : Frame → Type 0
IsResponse frame = is_response frame ≡ true

begin-Finishes :
    (w : Workstation)
    → All IsResponse w.responses
    → Finishes
        (λ (n, w').
          All (λ frame. IsResponse frame × ¬ (invoke_id frame ≡ ok (some n))) w'.responses)
        (begin w)
unfolding begin
begin-Finishes w h =
    Ends-bind (without_answers-All (next_invoke_id w.last_invoke_id) IsResponse w.responses h)
      λ rest e all. returns all

take_response-Finishes :
    (n : ℕ) (P : Frame → Type 0) (w : Workstation)
    → All P w.responses
    → Finishes
        (λ (found, w').
          All P w'.responses
          × ((frame : Frame) → found ≡ some frame → P frame × (invoke_id frame ≡ ok (some n))))
        (take_response n w)
unfolding take_response
take_response-Finishes n P w h = Ends-bind (taken-All n P w.responses h) λ r e all. returns all

kept_responses : (s : Session) → IsCurrent s → All IsResponse s.workstation.responses
kept_responses s h = All-map s.workstation.responses (λ frame t. t.0) h

Step-IsCurrent : {s t : Session} → Step s t → IsCurrent s → IsCurrent t
Step-IsCurrent (arrives s frame w datagram handled) h =
    let later : All (OnTime s.waiting (s.since ++ frame ∷ [])) s.workstation.responses =
      All-map s.workstation.responses
        (λ f (response, arrived).
          (response, λ n waits has. Memᴰ.append_left (frame ∷ []) (arrived n waits has)))
        h in
    let (_, _, kept) = Ends-ok (handle-Handled s.workstation frame) handled in
    elim kept [
      | inl same ↦ rw same later
      | inr (longer, response) ↦ rw longer (
          All-append (OnTime s.waiting (s.since ++ frame ∷ [])) s.workstation.responses (frame ∷ [])
            later ((response, λ n waits has. Memᴰ.append_right s.since (Memᴰ.head refl)), tt))
    ]
Step-IsCurrent (begins s n w begun) h =
    All-map w.responses
      (λ frame (response, other).
        (response, λ m waits has. absurd (other (has ∙ ap ok (sym waits)))))
      (Ends-ok (begin-Finishes s.workstation (kept_responses s h)) begun)
Step-IsCurrent (takes s n frame w waits taken) h =
    All-map w.responses (λ f response. (response, λ m nobody has. absurd (ground (arith, nobody))))
      (Ends-ok (take_response-Finishes n IsResponse s.workstation (kept_responses s h)) taken).0
Step-IsCurrent (gives_up s) h =
    All-map s.workstation.responses
      (λ f (response, _). (response, λ m nobody has. absurd (ground (arith, nobody)))) h

Reach-IsCurrent : {s t : Session} → IsCurrent s → Reach s t → IsCurrent t
Reach-IsCurrent h here = h
Reach-IsCurrent h (next reach step) = Step-IsCurrent step (Reach-IsCurrent h reach)

-- However the datagrams that arrive and the requests of a workstation interleave, one request at a time, a
-- frame that a request takes as its response is a SimpleACK, ComplexACK, Error, Reject or Abort with the
-- request's invoke id, and it arrived after the request began.
pub Reach-takes :
    (answer_notifications : Bool) (s : Session) (n : ℕ) (frame : Frame) (w : Workstation)
    → Reach (started answer_notifications) s
    → s.waiting ≡ some n
    → take_response n s.workstation ≡ ok (some frame, w)
    → (is_response frame ≡ true) × (invoke_id frame ≡ ok (some n)) × Memᴰ frame s.since
Reach-takes answer_notifications s n frame w reach waits is_taken =
    let (_, found) =
      Ends-ok
        (take_response-Finishes n (OnTime s.waiting s.since) s.workstation
          (Reach-IsCurrent tt reach))
        is_taken in
    let ((response, arrived), has) = found frame refl in (response, has, arrived n waits has)
