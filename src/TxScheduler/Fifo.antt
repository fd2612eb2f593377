-- ===== src/TxScheduler/Fifo.antt =====
-- The ring of lib/TxScheduler read as a FIFO, oldest frame first.
use native.Mathlib.Nat.{mod-eq_of_lt, mod-eq-sub-mod, mod-lt, mod-add-mod}
use native.Mathlib.Numerals.{add-one}
use mathlib.Core.Path.{ap₂}
use bally_os.Base.{
  ℕ, zero, suc, ◌+◌, ◌-◌, ◌%◌, ◌≤◌, ◌<◌, ◌≡◌, refl, ap, sym, ◌∙◌, ◌≢◌, ◌⊎◌, inl, inr, Bool, true,
  false, Option, none, some, List, [], ◌∷◌, ◌++◌, arith, length, get_or, set, length-set,
  get_or-set_self, get_or-set_ne, ◌==◌,
}
use bally_os.TxScheduler.Queue.{
  EncodedFrame, empty_frame, FrameQueue, max_capacity, push, pop_queue,
}
use native.Mathlib.Decide.{dec_lt}

unfoldable pub entries : ℕ → List EncodedFrame → ℕ → ℕ → List EncodedFrame
entries cap frames r zero = []
entries cap frames r (suc n) = get_or frames r empty_frame ∷ entries cap frames ((r + 1) % cap) n

pub length-entries :
    (cap : ℕ) (frames : List EncodedFrame) (r n : ℕ) → length (entries cap frames r n) ≡ n
unfolding entries
length-entries cap frames r zero = refl
length-entries cap frames r (suc n) = ap suc (length-entries cap frames ((r + 1) % cap) n)

-- The frames that a queue holds.
abbrev pub contents : ℕ → FrameQueue → List EncodedFrame
contents cap q = entries cap q.frames q.read q.count

pub record QueueOk (cap : ℕ) (q : FrameQueue) : Type 0 where
  pub size : length q.frames ≡ max_capacity
  pub read_lt : q.read < cap
  pub count_le : q.count ≤ cap
  pub write_eq : q.write ≡ (q.read + q.count) % cap

-- An index that has run at most once past the end.
abbrev Wraps : ℕ → ℕ → Type 0
Wraps cap a = ((a < cap) × (a % cap ≡ a)) ⊎ ((cap ≤ a) × (a % cap ≡ a - cap))

mod-Wraps : (cap a : ℕ) → a < cap + cap → Wraps cap a
mod-Wraps cap a h = elim (dec_lt a cap) [
  | yes l ↦ inl (l, mod-eq_of_lt l)
  | no l ↦ inr (omega arith, mod-eq-sub-mod (omega arith) ∙ mod-eq_of_lt (omega arith))
]

shift_index : (cap r m w : ℕ) → w ≡ (r + suc m) % cap → w ≡ ((r + 1) % cap + m) % cap
shift_index cap r m w e =
    e
    ∙ ap (λ x. x % cap) {x = r + suc m} {y = r + 1 + m} (omega arith)
    ∙ sym (mod-add-mod (r + 1) cap m)

entries-set :
    (cap : ℕ) (frames : List EncodedFrame) (f : EncodedFrame) (n r m w : ℕ)
    → r < cap
    → n ≤ m
    → m < cap
    → w ≡ (r + m) % cap
    → entries cap (set frames w f) r n ≡ entries cap frames r n
unfolding entries
entries-set cap frames f zero r m w h le lt e = refl
entries-set cap frames f (suc n) r zero w h le lt e = absurd (omega arith)
entries-set cap frames f (suc n) r (suc m) w h le lt e =
    let ne : w ≢ r = λ same. omega (arith, mod-Wraps cap (r + suc m) (omega arith)) in
    ap₂ ◌∷◌ (get_or-set_ne frames f empty_frame ne) (
      entries-set cap frames f n ((r + 1) % cap) m w (mod-lt (r + 1) (omega arith)) (omega arith)
        (omega arith) (shift_index cap r m w e))

entries-append :
    (cap : ℕ) (frames : List EncodedFrame) (n r w : ℕ)
    → r < cap
    → w ≡ (r + n) % cap
    → entries cap frames r (suc n) ≡ entries cap frames r n ++ (get_or frames w empty_frame ∷ [])
unfolding entries
entries-append cap frames zero r w h e =
    let same : r ≡ w = omega (arith, mod-eq_of_lt {n = r + zero} {m = cap} (omega arith)) in
    ap (λ x. get_or frames x empty_frame ∷ []) same
entries-append cap frames (suc n) r w h e = ap (◌∷◌ (get_or frames r empty_frame)) (
    entries-append cap frames n ((r + 1) % cap) w (mod-lt (r + 1) (omega arith))
      (shift_index cap r n w e))

-- A frame goes to the end, and the queue stays in order.
pub contents-push :
    (cap : ℕ) (q : FrameQueue) (f : EncodedFrame)
    → cap ≤ max_capacity
    → QueueOk cap q
    → q.count < cap
    → QueueOk cap (push cap q f) × (contents cap (push cap q f) ≡ contents cap q ++ (f ∷ []))
unfolding push
contents-push cap q f cap_le o room =
    let in_range : q.write < length q.frames =
      omega (arith, mod-lt (q.read + q.count) {m = cap} (omega arith)) in
    (
      record {
        size = length-set q.frames q.write f ∙ o.size;
        read_lt = o.read_lt;
        count_le = omega arith;
        write_eq =
            ap (λ x. (x + 1) % cap) o.write_eq
            ∙ mod-add-mod (q.read + q.count) cap 1
            ∙ ap (λ x. x % cap) {x = q.read + q.count + 1} {y = q.read + (q.count + 1)}
                (omega arith);
      },
      rw add-one (
          entries-append cap (set q.frames q.write f) q.count q.read q.write o.read_lt o.write_eq
          ∙ ap₂ (λ xs x. xs ++ (x ∷ []))
              (entries-set cap q.frames f q.count q.read q.count q.write o.read_lt (omega arith)
                room o.write_eq)
              (get_or-set_self q.frames q.write f empty_frame in_range)),
    )

-- What `pop` finds: a lock that is taken, an empty queue, or the oldest frame.
abbrev pub Pops : ℕ → FrameQueue → Option (EncodedFrame × FrameQueue) → Type 0
Pops cap q none = (q.lock ≡ true) ⊎ ((q.count ≡ 0) × (contents cap q ≡ []))
Pops cap q (some (f, q')) =
    QueueOk cap q'
    × (contents cap q ≡ f ∷ contents cap q')
    × (q.count ≡ suc q'.count)
    × (q'.lock ≡ q.lock)

pop-Pops :
    (cap : ℕ) (frames : List EncodedFrame) (r w n : ℕ) (lock : Bool)
    → let q : FrameQueue = record {
      frames = frames;
      read = r;
      write = w;
      count = n;
      lock = lock;
    } in
      QueueOk cap q → Pops cap q (pop_queue cap q)
unfolding pop_queue entries
pop-Pops cap frames r w n true o = inl refl
pop-Pops cap frames r w zero false o = inr (refl, refl)
pop-Pops cap frames r w (suc n) false o =
    let same : suc n - 1 ≡ n = omega arith in
    let some_left : (suc n == 0) ≡ false = ground arith in
    rw some_left (
      rw same (
        record {
          size = o.size;
          read_lt = mod-lt (r + 1) (omega arith);
          count_le = omega arith;
          write_eq = shift_index cap r n w o.write_eq;
        },
        refl,
        refl,
        refl,
      ))

pub pop_queue-Pops : (cap : ℕ) (q : FrameQueue) → QueueOk cap q → Pops cap q (pop_queue cap q)
pop_queue-Pops cap q o = pop-Pops cap q.frames q.read q.write q.count q.lock o
