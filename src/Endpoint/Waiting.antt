-- ===== src/Endpoint/Waiting.antt =====
-- What `wait_for` finds, without its index into the frames.
use bacnet_profile_example_b.Base.{
  ℕ, Bool, true, false, Option, none, some, List, [], ◌∷◌, ◌++◌, ◌≡◌, refl, sym, ap, ◌∙◌, subst,
  drop, length, arith, if◌then◌else◌, drop-append, drop-all,
}
use bacnet_profile_example_b.Python.{Octets, Result, Exception, ok, raised, out_of_fuel, ◌>>=◌}
use bacnet_profile_example_b.Codec.Frame.{Frame, Source, decode}
use bacnet_profile_example_b.Endpoint.{
  Receipt, datagram, connection_reset, receive_one, matches, first_match, Waited, or_wait,
  last_look, wait_from, wait_for,
}

-- The frames that the receipts are decoded to.
pub data Decodes : List Receipt → List Frame → Type 0 where
  nothing : Decodes [] []
  decoded :
      {receipts : List Receipt} {frames : List Frame} (octets : Octets) (source : Source)
      (frame : Frame)
      → decode octets source ≡ ok frame
      → Decodes receipts frames
      → Decodes (datagram octets source ∷ receipts) (frame ∷ frames)
  passed_over :
      {receipts : List Receipt} {frames : List Frame}
      → Decodes receipts frames
      → Decodes (connection_reset ∷ receipts) frames

abbrev pub or_look : Result (Option Frame) → Option Frame → Result (Option Frame)
or_look later (some frame) = ok (some frame)
or_look later none = later

module _ (predicate : Frame → Result Bool) where
  choose-look :
      (first : Result Bool) (frame : Frame) (rest later : Result (Option Frame))
      → (first >>= λ found. if found then ok (some frame) else (rest >>= or_look later))
        ≡ ((first >>= λ found. if found then ok (some frame) else rest) >>= or_look later)
  choose-look (ok true) frame rest later = refl
  choose-look (ok false) frame rest later = refl
  choose-look (raised e) frame rest later = refl
  choose-look out_of_fuel frame rest later = refl

  first_match-append :
      (frames frames' : List Frame)
      → first_match predicate (frames ++ frames')
        ≡ (first_match predicate frames >>= or_look (first_match predicate frames'))
  unfolding first_match
  first_match-append [] frames' = refl
  first_match-append (frame ∷ frames) frames' = rw (first_match-append frames frames') (
      choose-look (matches predicate frame) frame (first_match predicate frames)
        (first_match predicate frames'))

  -- What is found, without the frames.
  abbrev pub only_found : Waited → Result (Option Frame)
  only_found (found, frames) = ok found

  or_wait-found :
      (now : Result (Option Frame)) (frames : List Frame) (later : Result Waited)
      → ((now >>= or_wait frames later) >>= only_found) ≡ (now >>= or_look (later >>= only_found))
  or_wait-found (ok none) frames later = refl
  or_wait-found (ok (some frame)) frames later = refl
  or_wait-found (raised e) frames later = refl
  or_wait-found out_of_fuel frames later = refl

  -- A look at the frames that were not seen, before what comes later.
  wait-step :
      (unseen frames arriving : List Frame) (later : Result Waited)
      → (later >>= only_found) ≡ first_match predicate arriving
      → ((first_match predicate unseen >>= or_wait frames later) >>= only_found)
        ≡ first_match predicate (unseen ++ arriving)
  wait-step unseen frames arriving later e =
      or_wait-found (first_match predicate unseen) frames later
      ∙ ap (λ l. first_match predicate unseen >>= or_look l) e
      ∙ sym (first_match-append unseen arriving)

  wait_from-first :
      {receipts : List Receipt} {arriving : List Frame}
      → Decodes receipts arriving
      → (seen : ℕ) (frames : List Frame)
      → (wait_from predicate seen receipts frames >>= only_found)
        ≡ first_match predicate (drop seen frames ++ arriving)
  unfolding wait_from receive_one first_match
  wait_from-first nothing seen frames =
      wait-step (drop seen frames) frames []
        (last_look predicate (drop (length frames) frames) frames)
        (rw (drop-all (length frames) frames (omega arith)) refl)
  wait_from-first {receipts = datagram _ _ ∷ receipts} {arriving = _ ∷ arriving}
        (decoded octets source frame e more) seen frames =
      wait-step (drop seen frames) frames (frame ∷ arriving)
        (receive_one (datagram octets source) frames >>= λ frames'.
          wait_from predicate (length frames) receipts frames')
        (rw e (
          wait_from-first more (length frames) (frames ++ frame ∷ [])
          ∙ ap (λ unseen. first_match predicate (unseen ++ arriving))
              (drop-append frames (frame ∷ []) (length frames) refl)))
  wait_from-first {receipts = _ ∷ receipts} {arriving = arriving} (passed_over more) seen frames =
      wait-step (drop seen frames) frames arriving
        (wait_from predicate (length frames) receipts frames)
        (wait_from-first more (length frames) frames
          ∙ ap (λ unseen. first_match predicate (unseen ++ arriving))
              (drop-all (length frames) frames (omega arith)))

  -- What a look through frames, in their order, comes to: the first frame that is accepted and for which the
  -- predicate holds, or None; the predicate is asked of accepted frames only, and what it raises ends the look.
  pub data Looks : List Frame → Result (Option Frame) → Type 0 where
    nothing_left : Looks [] (ok none)
    holds :
        {frame : Frame} {frames : List Frame}
        → frame.accepted ≡ true
        → predicate frame ≡ ok true
        → Looks (frame ∷ frames) (ok (some frame))
    not_accepted :
        {frame : Frame} {frames : List Frame} {found : Result (Option Frame)}
        → frame.accepted ≡ false
        → Looks frames found
        → Looks (frame ∷ frames) found
    holds_not :
        {frame : Frame} {frames : List Frame} {found : Result (Option Frame)}
        → frame.accepted ≡ true
        → predicate frame ≡ ok false
        → Looks frames found
        → Looks (frame ∷ frames) found
    predicate_raises :
        {frame : Frame} {frames : List Frame} {e : Exception}
        → frame.accepted ≡ true
        → predicate frame ≡ raised e
        → Looks (frame ∷ frames) (raised e)
    predicate_runs_out :
        {frame : Frame} {frames : List Frame}
        → frame.accepted ≡ true
        → predicate frame ≡ out_of_fuel
        → Looks (frame ∷ frames) out_of_fuel

  Looks-asked :
      (asked : Result Bool) (frame : Frame) (frames : List Frame) (rest : Result (Option Frame))
      → frame.accepted ≡ true
      → predicate frame ≡ asked
      → Looks frames rest
      → Looks (frame ∷ frames) (asked >>= λ found. if found then ok (some frame) else rest)
  Looks-asked (ok true) frame frames rest accepted e looks = holds accepted e
  Looks-asked (ok false) frame frames rest accepted e looks = holds_not accepted e looks
  Looks-asked (raised x) frame frames rest accepted e looks = predicate_raises accepted e
  Looks-asked out_of_fuel frame frames rest accepted e looks = predicate_runs_out accepted e

  Looks-matches :
      (is_accepted : Bool) (frame : Frame) (frames : List Frame) (rest : Result (Option Frame))
      → frame.accepted ≡ is_accepted
      → Looks frames rest
      → Looks (frame ∷ frames) (
          (if is_accepted then predicate frame else ok false) >>= λ found.
          if found then ok (some frame) else rest)
  Looks-matches true frame frames rest e looks =
      Looks-asked (predicate frame) frame frames rest e refl looks
  Looks-matches false frame frames rest e looks = not_accepted e looks

  Looks-first_match : (frames : List Frame) → Looks frames (first_match predicate frames)
  unfolding first_match
  Looks-first_match [] = nothing_left
  Looks-first_match (frame ∷ frames) =
      Looks-matches frame.accepted frame frames (first_match predicate frames) refl
        (Looks-first_match frames)

  -- When every datagram that arrives in time can be decoded, `wait_for` returns the first frame that was
  -- accepted when it was decoded and for which the predicate holds, among those that were kept already and then
  -- those that arrive, in their order, or None when there is none; and what the predicate raises of an accepted
  -- frame before that one it raises.
  pub wait_for-first :
      (receipts : List Receipt) (frames arriving : List Frame)
      → Decodes receipts arriving
      → Looks (frames ++ arriving) (wait_for predicate receipts frames >>= only_found)
  unfolding wait_for
  wait_for-first receipts frames arriving decodes =
      subst (Looks (frames ++ arriving)) (sym (wait_from-first decodes 0 frames))
        (Looks-first_match (frames ++ arriving))
