-- ===== src/Client/Retries.antt =====
-- wiretest/client.py: how often a request is sent, and which of the invoke ids it has.
use bacnet_profile_example_b.Base.{
  ℕ, zero, suc, ◌+◌, ◌%◌, ◌≤◌, ◌<◌, Option, none, some, ◌≡◌, ◌≢◌, refl, ap, ◌∙◌, arith, Bool-cases,
  inl, inr, ◌==◌, ==_iff,
}
use bacnet_profile_example_b.Python.{Result, ok}
use bacnet_profile_example_b.Codec.Frame.{Frame}
use bacnet_profile_example_b.Client.{next_invoke_id, attempts, send_with_retries}

-- A network that gives one outcome to each sending; its state counts the sendings.
abbrev pub nth_outcome : (ℕ → Option Frame) → ℕ → Result (Option Frame × ℕ)
nth_outcome outcomes sent = ok (outcomes sent, suc sent)

attempts-first :
    (outcomes : ℕ → Option Frame) (more sent last : ℕ) (frame : Frame)
    → ((j : ℕ) → sent ≤ j → j < last → outcomes j ≡ none)
    → outcomes last ≡ some frame
    → sent ≤ last
    → last < sent + more
    → attempts (nth_outcome outcomes) more sent ≡ ok (some frame, suc last)
unfolding attempts
attempts-first outcomes zero sent last frame silent found h k = absurd (omega arith)
attempts-first outcomes (suc more) sent last frame silent found h k =
    elim (Bool-cases (sent == last)) [
      | inl same ↦
          let now : sent ≡ last = (==_iff sent last).0 same in
          let answered : outcomes sent ≡ some frame = ap outcomes now ∙ found in
          rw answered (ap (λ n. ok (some frame, suc n)) now)
      | inr different ↦
          let earlier : sent < last = ground (arith, ==_iff sent last) in
          rw (silent sent (omega arith) earlier) (
            attempts-first outcomes more (suc sent) last frame
              (λ j above below. silent j (omega arith) below) found (omega arith) (omega arith))
    ]

attempts-silent :
    (outcomes : ℕ → Option Frame) (more sent last : ℕ)
    → ((j : ℕ) → sent ≤ j → j < last → outcomes j ≡ none)
    → sent + more ≡ last
    → attempts (nth_outcome outcomes) more sent ≡ ok (none, last)
unfolding attempts
attempts-silent outcomes zero sent last silent e = ap (λ n. ok (none, n)) (omega arith)
attempts-silent outcomes (suc more) sent last silent e =
    rw (silent sent (omega arith) (omega arith)) (
      attempts-silent outcomes more (suc sent) last (λ j above below. silent j (omega arith) below)
        (omega arith))

-- A request whose first answer comes to its sending number `before` + 1, within 1 + `retries`
-- sendings, gets that answer and is not sent again.
pub send_with_retries-first :
    (outcomes : ℕ → Option Frame) (retries before : ℕ) (frame : Frame)
    → ((j : ℕ) → j < before → outcomes j ≡ none)
    → outcomes before ≡ some frame
    → before ≤ retries
    → send_with_retries (nth_outcome outcomes) retries 0
      ≡ ok (record { frame = some frame }, suc before)
unfolding send_with_retries
send_with_retries-first outcomes retries before frame silent found h =
    rw
      (attempts-first outcomes (suc retries) 0 before frame (λ j above below. silent j below) found
        (omega arith) (omega arith))
      refl

-- A request that no sending gets an answer to is sent 1 + `retries` times, and its Answer has no frame.
pub send_with_retries-silent :
    (outcomes : ℕ → Option Frame) (retries : ℕ)
    → ((j : ℕ) → j ≤ retries → outcomes j ≡ none)
    → send_with_retries (nth_outcome outcomes) retries 0 ≡ ok (record { frame = none }, suc retries)
unfolding send_with_retries
send_with_retries-silent outcomes retries silent =
    rw
      (attempts-silent outcomes (suc retries) 0 (suc retries)
        (λ j above below. silent j (omega arith)) (omega arith))
      refl

-- The invoke id after `k` requests.
pub invoke_id_after : ℕ → ℕ → ℕ
invoke_id_after n zero = n
invoke_id_after n (suc k) = next_invoke_id (invoke_id_after n k)

invoke_id_after-eq : (n k : ℕ) → n < 256 → invoke_id_after n k ≡ (n + k) % 256
unfolding invoke_id_after next_invoke_id
invoke_id_after-eq n zero h = omega arith
invoke_id_after-eq n (suc k) h = omega (arith, invoke_id_after-eq n k h)

-- Of any 256 requests in a row no two have the same invoke id.
pub invoke_id_after-distinct :
    (n j k : ℕ) → n < 256 → j < k → k < j + 256 → invoke_id_after n j ≢ invoke_id_after n k
invoke_id_after-distinct n j k h l m same =
    omega (arith, invoke_id_after-eq n j h, invoke_id_after-eq n k h, same)
