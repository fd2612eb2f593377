-- ===== src/Logger/Holding.antt =====
-- lib/Logger: the ring as a text of octets, from the oldest on.
use bally_os.Base.{
  ℕ, ◌+◌, ◌-◌, ◌%◌, ◌^◌, ◌≤◌, ◌<◌, ◌≡◌, refl, sym, ap, subst, ◌∙◌, List, ◌++◌, append_assoc, arith,
  length, take, drop, u32, length-append, length-take, length-drop,
}
use native.Mathlib.Nat.{mod-eq_of_lt, mod-eq-sub-mod, mod-add-mod, mod-lt}
use bally_os.Logger.Storage.{Ring, write_to_ring, read_from_ring}
use bally_os.Logger.Turning.{turn, turn_further, drop-append_lt, take_front}
use bally_os.Logger.Copying.{read_from_ring-turn, storage-write_to_ring}

-- From the read offset on the ring holds the text, then free octets.
pub record Holds (r : Ring) (text : List ℕ) : Type 0 where
  pub free : List ℕ
  pub turned : turn r.read_offset r.storage ≡ text ++ free
  pub sized : length r.storage ≡ r.capacity
  pub small : r.capacity < 2 ^ 31
  pub inside : r.read_offset < r.capacity
  pub written : r.write_offset ≡ (r.read_offset + length text) % r.capacity

length-turn : (o : ℕ) (st : List ℕ) → length (turn o st) ≡ length st
length-turn o st =
    omega (arith, length-append (drop o st) (take o st), length-drop o st, length-take o st)

-- The end of a round trip through the ring.
round_trip : (o a c : ℕ) → o < c → a ≤ c → ((o + a) % c + (c - a)) % c ≡ o
round_trip o a c low le =
    mod-add-mod (o + a) c (c - a)
    ∙ ap (λ k. k % c) {x = o + a + (c - a)} {y = o + c} (omega arith)
    ∙ mod-eq-sub-mod {n = o + c} {m = c} (omega arith)
    ∙ ap (λ k. k % c) {x = o + c - c} {y = o} (omega arith)
    ∙ mod-eq_of_lt low

pub turn-text :
    {r : Ring} (a b : List ℕ)
    → (h : Holds r (a ++ b))
    → turn ((r.read_offset + length a) % r.capacity) r.storage ≡ b ++ (h.free ++ a)
turn-text {r} a b h =
    subst (λ c. turn ((r.read_offset + length a) % c) r.storage ≡ b ++ (h.free ++ a)) h.sized
      (turn_further r.storage a (b ++ h.free) r.read_offset (length a)
          (omega (arith, h.inside, h.sized)) refl (h.turned ∙ append_assoc a b h.free)
        ∙ append_assoc b h.free a)

-- What is read from inside the text.
pub read_from_ring-text :
    {r : Ring} (a b c : List ℕ)
    → Holds r (a ++ (b ++ c))
    → read_from_ring r ((r.read_offset + length a) % r.capacity) (length b) ≡ b
read_from_ring-text {r} a b c h =
    let o = (r.read_offset + length a) % r.capacity in
    let e = turn-text a (b ++ c) h in
    let le : length b ≤ r.capacity = omega (
      arith,
      ap (length {A = ℕ}) h.turned,
      length-turn r.read_offset r.storage,
      length-append (a ++ (b ++ c)) h.free,
      length-append a (b ++ c),
      length-append b c,
      h.sized,
    ) in
    read_from_ring-turn r o (length b) h.sized (mod-lt _ (omega (arith, h.inside))) le
    ∙ ap (take (length b)) (e ∙ append_assoc b c (h.free ++ a))
    ∙ take_front (length b) b (c ++ (h.free ++ a)) refl

-- The text and the free octets fill the ring.
pub length-text :
    {r : Ring} {text : List ℕ} → (h : Holds r text) → length text + length h.free ≡ r.capacity
length-text {r} {text} h = omega (
  arith,
  ap (length {A = ℕ}) h.turned,
  length-turn r.read_offset r.storage,
  length-append text h.free,
  h.sized,
)

write_offset-write_to_ring :
    (r : Ring) (source : List ℕ)
    → 0 < length source
    → (write_to_ring r source).write_offset ≡ u32 (r.write_offset + length source) % r.capacity
unfolding write_to_ring
write_offset-write_to_ring r source some_octets = ground arith

-- The fields that a write leaves alone.
pub kept-write_to_ring :
    (r : Ring) (source : List ℕ)
    → ((write_to_ring r source).read_offset ≡ r.read_offset)
      × ((write_to_ring r source).capacity ≡ r.capacity)
      × ((write_to_ring r source).used_bytes ≡ r.used_bytes)
unfolding write_to_ring
kept-write_to_ring r source = ground arith

-- A write of a text that fits adds it at the end.
module _ {r : Ring} {text : List ℕ} (h : Holds r text) (source : List ℕ)
    (some_octets : 0 < length source) (fits : length source ≤ length h.free) where
  write_lt : r.write_offset < r.capacity
  write_lt = subst (λ k. k < r.capacity) (sym h.written) (mod-lt _ (omega (arith, h.inside)))

  at_write : turn r.write_offset r.storage ≡ h.free ++ text
  at_write =
      ap (λ k. turn k r.storage)
        (h.written ∙ ap (λ c. (r.read_offset + length text) % c) (sym h.sized))
      ∙ turn_further r.storage text h.free r.read_offset (length text)
          (omega (arith, h.inside, h.sized)) refl h.turned

  from_write :
      turn r.write_offset (write_to_ring r source).storage
      ≡ (source ++ drop (length source) h.free) ++ text
  from_write =
      storage-write_to_ring r source h.sized write_lt (omega (arith, length-text h))
      ∙ ap (λ z. source ++ drop (length source) z) at_write
      ∙ ap (λ z. source ++ z) (drop-append_lt (length source) h.free text fits)
      ∙ sym (append_assoc source (drop (length source) h.free) text)

  size_after : length (write_to_ring r source).storage ≡ r.capacity
  size_after = omega (
    arith,
    length-text h,
    ap (length {A = ℕ}) from_write,
    length-turn r.write_offset (write_to_ring r source).storage,
    length-append (source ++ drop (length source) h.free) text,
    length-append source (drop (length source) h.free),
    length-drop (length source) h.free,
  )

  from_read :
      turn r.read_offset (write_to_ring r source).storage
      ≡ text ++ (source ++ drop (length source) h.free)
  from_read =
      let n = r.capacity - length text in
      let back : (r.write_offset + n) % length (write_to_ring r source).storage ≡ r.read_offset =
        ap (λ k. (r.write_offset + n) % k) size_after
        ∙ ap (λ k. (k + n) % r.capacity) h.written
        ∙ round_trip r.read_offset (length text) r.capacity h.inside
            (omega (arith, length-text h)) in
      ap (λ k. turn k (write_to_ring r source).storage) (sym back)
      ∙ turn_further (write_to_ring r source).storage (source ++ drop (length source) h.free) text
          r.write_offset n (omega (arith, write_lt, size_after))
          (omega (
            arith,
            length-text h,
            length-append source (drop (length source) h.free),
            length-drop (length source) h.free,
          ))
          from_write

  pub write_to_ring-Holds : Holds (write_to_ring r source) (text ++ source)
  write_to_ring-Holds =
      let (same_read, same_capacity, same_used) = kept-write_to_ring r source in
      record {
        free = drop (length source) h.free;
        turned =
            ap (λ k. turn k (write_to_ring r source).storage) same_read
            ∙ from_read
            ∙ sym (append_assoc text source (drop (length source) h.free));
        sized = size_after ∙ sym same_capacity;
        small = omega (arith, same_capacity, h.small);
        inside = omega (arith, same_capacity, same_read, h.inside);
        written =
            write_offset-write_to_ring r source some_octets
            ∙ ap (λ k. k % r.capacity) {y = r.write_offset + length source}
                (omega (arith, write_lt, h.small, length-text h, fits))
            ∙ ap (λ k. (k + length source) % r.capacity) h.written
            ∙ mod-add-mod (r.read_offset + length text) r.capacity (length source)
            ∙ ap (λ k. k % r.capacity) {x = r.read_offset + length text + length source}
                {y = (write_to_ring r source).read_offset + length (text ++ source)}
                (omega (arith, same_read, length-append text source))
            ∙ ap (λ k. ((write_to_ring r source).read_offset + length (text ++ source)) % k)
                (sym same_capacity);
      }

-- The octets at the front become free.
pub release-Holds :
    {r : Ring} (a b : List ℕ) (n used : ℕ)
    → length a ≡ n
    → Holds r (a ++ b)
    → Holds (record r { read_offset = u32 (r.read_offset + n) % r.capacity; used_bytes = used }) b
release-Holds {r} a b n used size h =
    let total = length-text h in
    let next : u32 (r.read_offset + n) % r.capacity ≡ (r.read_offset + length a) % r.capacity =
      ap (λ k. k % r.capacity) (omega (arith, h.inside, h.small, total, length-append a b)) in
    record {
      free = h.free ++ a;
      turned = ap (λ k. turn k r.storage) next ∙ turn-text a b h;
      sized = h.sized;
      small = h.small;
      inside = mod-lt _ (omega (arith, h.inside));
      written =
          h.written
          ∙ ap (λ k. k % r.capacity) {y = r.read_offset + length a + length b}
              (omega (arith, length-append a b))
          ∙ sym (mod-add-mod (r.read_offset + length a) r.capacity (length b))
          ∙ ap (λ k. (k + length b) % r.capacity) (sym next);
    }
