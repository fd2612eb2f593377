-- ===== src/Logger/Copying.antt =====
-- lib/Logger: what `write_to_ring` and `read_from_ring` do, in the order in which the ring is read.
use bally_os.Base.{
  ℕ, zero, suc, ◌+◌, ◌-◌, ◌≤◌, ◌<◌, ◌≡◌, refl, sym, ap, ◌∙◌, false, List, [], ◌∷◌, ◌++◌, append-nil,
  append_assoc, arith, ltb, ◌==◌, if◌then◌else◌, length, take, drop, length-append, length-take,
  length-drop, take-take, take_all, drop-append, Bool-cases, inl, inr,
}
use bally_os.Logger.Storage.{Ring, copy_to, write_to_ring, read_from_ring}
use bally_os.Logger.Turning.{
  turn, take-drop, take-append_lt, drop-append_lt, take-append_le, drop-append_le, drop-drop,
  take_front, drop_front,
}

-- What `memcpy` moves after the end of the storage is all that is left.
rest_lem :
    (f len : ℕ) (xs : List ℕ) → (if ltb f len then take (len - f) xs else []) ≡ take (len - f) xs
rest_lem f len xs = elim (Bool-cases (ltb f len)) [
  | inl e ↦ rw e refl
  | inr e ↦ rw e (ap (λ k. take k xs) {x = 0} {y = len - f} (ground arith))
]

suc_ne : (n : ℕ) → (suc n == 0) ≡ false
suc_ne n = ground arith

-- Reading `len` octets from an offset on.
pub read_from_ring-turn :
    (r : Ring) (o len : ℕ)
    → length r.storage ≡ r.capacity
    → o < r.capacity
    → len ≤ r.capacity
    → read_from_ring r o len ≡ take len (turn o r.storage)
unfolding read_from_ring
read_from_ring-turn r o zero sized low fits = refl
read_from_ring-turn r o (suc n) sized low fits =
    let d = drop o r.storage in
    let t = take o r.storage in
    let size_d : length d ≡ r.capacity - o = omega (arith, length-drop o r.storage) in
    elim (Bool-cases (ltb (suc n) (r.capacity - o))) [
      | inl e ↦
          rw (suc_ne n, e, rest_lem (suc n) (suc n) r.storage)
            (ap (λ k. take (suc n) d ++ take k r.storage) {y = 0} (omega arith)
              ∙ append-nil (take (suc n) d)
              ∙ sym (take-append_lt (suc n) d t (ground arith)))
      | inr e ↦
          let le : length d ≤ suc n = ground arith in
          let le' : suc n - length d ≤ o = omega arith in
          rw (suc_ne n, e, rest_lem (r.capacity - o) (suc n) r.storage)
            (ap (λ z. z ++ take (suc n - (r.capacity - o)) r.storage)
                (take_all (r.capacity - o) d (omega arith))
              ∙ ap (λ k. d ++ take k r.storage) {y = suc n - length d} (omega arith)
              ∙ ap (λ z. d ++ z) (sym (take-take (suc n - length d) o r.storage le'))
              ∙ sym (take-append_le (suc n) d t le))
    ]

-- A text that ends before the end of the storage.
straight :
    (st source : List ℕ) (w : ℕ)
    → w + length source ≤ length st
    → turn w (copy_to st w source) ≡ source ++ drop (length source) (turn w st)
unfolding copy_to
straight st source w fits =
    let n = length source in
    let size : length (take w st) ≡ w = omega (arith, length-take w st) in
    rw
      (
        drop_front w (take w st) (source ++ drop (w + n) st) size,
        take_front w (take w st) (source ++ drop (w + n) st) size,
      )
      (append_assoc source (drop (w + n) st) (take w st)
        ∙ ap (λ z. source ++ (z ++ take w st)) (sym (drop-drop w n st))
        ∙ ap (λ z. source ++ z)
            (sym (drop-append_lt n (drop w st) (take w st) (omega (arith, length-drop w st)))))

-- A text that goes on at the start of the storage.
wrapped :
    (st a b : List ℕ) (w : ℕ)
    → w ≤ length st
    → length a ≡ length st - w
    → length b ≤ w
    → turn w (copy_to (copy_to st w a) 0 b) ≡ (a ++ b) ++ drop (length b) (take w st)
unfolding copy_to
wrapped st a b w w_le size_a size_b =
    let t = take w st in
    let size_t : length t ≡ w = omega (arith, length-take w st) in
    let end : drop (w + length a) st ≡ [] =
      sym (drop-drop w (length a) st)
      ∙ ap (λ k. drop k (drop w st)) {y = length (drop w st) + 0} (omega (arith, length-drop w st))
      ∙ ap (drop (length (drop w st) + 0)) (sym (append-nil (drop w st)))
      ∙ drop-append 0 (drop w st) [] in
    let once : take w st ++ (a ++ drop (w + length a) st) ≡ t ++ a =
      ap (λ z. t ++ (a ++ z)) end ∙ ap (λ z. t ++ z) (append-nil a) in
    let front = b ++ drop (length b) t in
    let size : length front ≡ w =
      omega (arith, length-append b (drop (length b) t), length-drop (length b) t) in
    let twice : b ++ drop (0 + length b) (t ++ a) ≡ front ++ a =
      ap (λ k. b ++ drop k (t ++ a)) {y = length b} (omega arith)
      ∙ ap (λ z. b ++ z) (drop-append_lt (length b) t a (omega arith))
      ∙ sym (append_assoc b (drop (length b) t) a) in
    rw (once, twice, drop_front w front a size, take_front w front a size)
      (sym (append_assoc a b (drop (length b) t)))

ltb_self : (n : ℕ) → ltb n n ≡ false
ltb_self n = ground arith

-- Writing a text that fits, at an offset.
pub storage-write_to_ring :
    (r : Ring) (source : List ℕ)
    → length r.storage ≡ r.capacity
    → r.write_offset < r.capacity
    → length source ≤ r.capacity
    → turn r.write_offset (write_to_ring r source).storage
      ≡ source ++ drop (length source) (turn r.write_offset r.storage)
unfolding write_to_ring
storage-write_to_ring r [] sized low fits = refl
storage-write_to_ring r (c ∷ cs) sized low fits =
    let source = c ∷ cs in
    let n = length source in
    let w = r.write_offset in
    let first = r.capacity - w in
    let st = r.storage in
    elim (Bool-cases (ltb n first)) [
      | inl e ↦
          rw (suc_ne (length cs), e, ltb_self n, take_all n source (omega arith))
            (straight st source w (ground arith))
      | inr e ↦ elim (Bool-cases (ltb first n)) [
        | inl more ↦
            let a = take first source in
            let b = drop first source in
            let size_a : length a ≡ first = ground (arith, length-take first source) in
            let size_b : length b ≡ n - first = omega (arith, length-drop first source) in
            rw (suc_ne (length cs), e, more)
              (wrapped st a b w (omega arith) (omega arith) (omega arith)
                ∙ ap (λ z. z ++ drop (length b) (take w st)) (take-drop first source)
                ∙ ap (λ z. source ++ z)
                    (ap (λ k. drop k (take w st)) {y = n - length (drop w st)}
                        (omega (arith, length-drop w st))
                      ∙ sym (
                          drop-append_le n (drop w st) (take w st)
                            (ground (arith, length-drop w st)))))
        | inr same ↦
            let le : n ≤ first = ground arith in
            rw (suc_ne (length cs), e, same, take_all first source le)
              (straight st source w (ground arith))
      ]
    ]
