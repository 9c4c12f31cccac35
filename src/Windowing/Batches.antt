-- ===== src/Windowing/Batches.antt =====
-- Loading batch after batch shows the whole backfill, each message once and in order.
use native.Mathlib.Nat.{suc-mul}
use privibe.Prelude.{
  ℕ, zero, suc, ◌-◌, append_assoc, ◌*◌, eqb_iff, Bool-cases, inl, inr, false, ◌≤◌, ◌<◌, ◌≡◌, ◌∙◌,
  sym, ap, refl, Option, none, some, List, [], ◌∷◌, ◌++◌, length, take, eqb, arith,
}
use privibe.Message.{LlmMessage}
use privibe.Windowing.{
  LoadMoreBatch, remaining, SessionWindowing, slice, batch_at, next_load_more_batch,
}

messages_of : Option LoadMoreBatch → List LlmMessage
messages_of none = []
messages_of (some b) = b.messages

-- What `n` presses of "load more" put before what is on screen.
unfoldable pub load_more :
    ℕ → SessionWindowing → List LlmMessage → List LlmMessage × SessionWindowing
unfolding messages_of
load_more zero w screen = (screen, w)
load_more (suc n) w screen =
    let (batch, w') = next_load_more_batch w in load_more n w' (messages_of batch ++ screen)

-- The cursor stands inside the backfill, and a batch is not empty.
abbrev pub IsInside : SessionWindowing → Type 0
IsInside w = (w.backfill_cursor ≤ length w.backfill_messages) × (0 < w.load_more_batch_size)

messages_of-batch_at : (start : ℕ) (ms : List LlmMessage) → messages_of (batch_at start ms) ≡ ms
unfolding messages_of batch_at
messages_of-batch_at start [] = refl
messages_of-batch_at start (m ∷ ms) = refl

take-slice :
    (start end : ℕ) (ms : List LlmMessage)
    → start ≤ end
    → take start ms ++ slice start end ms ≡ take end ms
unfolding slice
take-slice zero end ms le = refl
take-slice (suc s) zero ms le = absurd (omega arith)
take-slice (suc s) (suc e) [] le = refl
take-slice (suc s) (suc e) (m ∷ ms) le = ap (m ∷◌) (take-slice s e ms (omega arith))

next_load_more_batch_end :
    (w : SessionWindowing) → w.backfill_cursor ≡ 0 → next_load_more_batch w ≡ (none, w)
unfolding next_load_more_batch
next_load_more_batch_end w e = rw (e, next_load_more_batch) refl

next_load_more_batch_more :
    (w : SessionWindowing)
    → eqb w.backfill_cursor 0 ≡ false
    → next_load_more_batch w ≡ (
      batch_at (w.backfill_cursor - w.load_more_batch_size) (
          slice (w.backfill_cursor - w.load_more_batch_size) w.backfill_cursor w.backfill_messages),
      record w { backfill_cursor = w.backfill_cursor - w.load_more_batch_size },
    )
unfolding next_load_more_batch
next_load_more_batch_more w e = rw (e, next_load_more_batch) refl

load_more_end :
    (n : ℕ) (w : SessionWindowing) (screen : List LlmMessage)
    → w.backfill_cursor ≡ 0
    → load_more n w screen ≡ (screen, w)
unfolding load_more messages_of
load_more_end zero w screen e = refl
load_more_end (suc n) w screen e = rw (next_load_more_batch_end w e) (load_more_end n w screen e)

load_more_step :
    (n : ℕ) (w : SessionWindowing) (screen : List LlmMessage)
    → eqb w.backfill_cursor 0 ≡ false
    → load_more (suc n) w screen
      ≡ load_more n
          (record w { backfill_cursor = w.backfill_cursor - w.load_more_batch_size })
          (slice (w.backfill_cursor - w.load_more_batch_size) w.backfill_cursor w.backfill_messages
            ++ screen)
unfolding load_more
load_more_step n w screen more =
    let start : ℕ = w.backfill_cursor - w.load_more_batch_size in
    ap (λ x. load_more n x.1 (messages_of x.0 ++ screen)) (next_load_more_batch_more w more)
    ∙ ap (λ b. load_more n (record w { backfill_cursor = start }) (b ++ screen))
        (messages_of-batch_at start (slice start w.backfill_cursor w.backfill_messages))

-- Enough presses of "load more" put exactly the messages before the cursor in front of what is on
-- screen, in order and each once, and leave none to load.
pub load_more_all :
    (n : ℕ) (w : SessionWindowing) (screen : List LlmMessage)
    → w.backfill_cursor ≤ n * w.load_more_batch_size
    → ((load_more n w screen).0 ≡ take w.backfill_cursor w.backfill_messages ++ screen)
      × (remaining (load_more n w screen).1 ≡ 0)
unfolding remaining
load_more_all zero w screen h =
    unfold load_more in let e : w.backfill_cursor ≡ 0 = omega (arith, h) in (rw e refl, e)
load_more_all (suc n) w screen h = elim (Bool-cases (eqb w.backfill_cursor 0)) [
  | inl at_end ↦
      let e = (eqb_iff w.backfill_cursor 0).0 at_end in
      let all = load_more_end (suc n) w screen e in
      (ap (λ x. x.0) all ∙ rw e refl, ap (λ x. x.1.backfill_cursor) all ∙ e)
  | inr more ↦
      let start : ℕ = w.backfill_cursor - w.load_more_batch_size in
      let one = load_more_step n w screen more in
      let part = slice start w.backfill_cursor w.backfill_messages in
      let (shown, done) =
        load_more_all n (record w { backfill_cursor = start }) (part ++ screen)
          (omega (arith, suc-mul n w.load_more_batch_size, h)) in
      (
        ap (λ x. x.0) one
            ∙ shown
            ∙ sym (append_assoc (take start w.backfill_messages) part screen)
            ∙ ap (◌++ screen)
                (take-slice start w.backfill_cursor w.backfill_messages (omega arith)),
        ap (λ x. x.1.backfill_cursor) one ∙ done,
      )
]
