-- ===== src/Sequence/Insert.antt =====
-- `queue_insert` inserts into the list that the circular array stands for.
use libbrowserid.Prelude.{
  ℕ, suc, ◌+◌, ◌-◌, ◌%◌, ◌<◌, ◌≤◌, ◌≡◌, refl, sym, ap, ap₂, ◌∙◌, List, ◌∷◌, ◌++◌, length, get_or,
  length-set, arith, Bool-cases, inl, inr, ◌==◌, if◌then◌else◌,
}
use libbrowserid.Sequence.{
  Queue, queue_length, get_elem, set_elem, shift_up, queue_insert, last_index,
}
use libbrowserid.Sequence.Ring.{
  view, view-append, view_eq, length-shift_up, shift_up_outside, shift_up_inside, get-set_self,
  get-set_ne,
}
use libbrowserid.Sequence.Window.{slide}

-- The representation invariant that the source states: a circular array of `queue_length`
-- elements, at least one of them in use.
pub record IsValid (q : Queue) : Type 0 where
  pub array : length q.elem ≡ queue_length
  pub start_in : q.start < queue_length
  pub some_in : 1 ≤ q.length
  pub fits : q.length ≤ queue_length

abbrev pub view_queue : Queue → List ℕ
view_queue q = view q.elem q.start q.length

get-wrap : (e : List ℕ) (p : ℕ) → get_elem e (p + 20) ≡ get_elem e p
get-wrap e p = ap (λ i. get_or e i 0) (let k : (p + 20) % 20 ≡ p % 20 = omega arith in k)

-- The array after an insertion behind `after`.
filled : List ℕ → ℕ → ℕ → ℕ → List ℕ
filled e after last s = set_elem (shift_up (last - after) last e) (after + 1) s

view-wrap :
    (e : List ℕ) (start n : ℕ)
    → view e (if start + 1 == queue_length then 0 else start + 1) n ≡ view e (start + 1) n
view-wrap e start n = elim (Bool-cases (start + 1 == queue_length)) [
  | inl h ↦ rw h (
      sym (
        view_eq e e (start + 1) 0 n (λ i l.
          ap (λ k. get_or e k 0)
            (let k : (start + 1 + i) % 20 ≡ (0 + i) % 20 = ground arith in k))))
  | inr h ↦ rw h
]

module _ (e : List ℕ) (le : length e ≡ queue_length) (after last s : ℕ) (below : after ≤ last)
    (near : last ≤ after + 19) where
  abbrev f : List ℕ
  f = filled e after last s

  length-filled : length f ≡ queue_length
  unfolding filled
  length-filled = length-set (shift_up (last - after) last e) _ _ ∙ length-shift_up _ last e ∙ le

  filled_below : (p : ℕ) → last + 1 < p + 20 → p ≤ after → get_elem f p ≡ get_elem e p
  unfolding filled
  filled_below p h l =
      get-set_ne _ (after + 1) p s (omega arith)
      ∙ sym (get-wrap (shift_up (last - after) last e) p)
      ∙ shift_up_outside (last - after) last (p + 20) e (omega arith) (omega arith) (omega arith)
      ∙ get-wrap e p

  filled_at : get_elem f (after + 1) ≡ s
  unfolding filled
  filled_at = get-set_self _ (after + 1) (after + 1) s (length-shift_up _ last e ∙ le) refl

  filled_above : (p : ℕ) → after + 1 < p → p ≤ last + 1 → get_elem f p ≡ get_elem e (p - 1)
  unfolding filled
  filled_above p h l =
      get-set_ne _ (after + 1) p s (omega arith)
      ∙ shift_up_inside (last - after) last p e le (omega arith) (omega arith) (omega arith) l

  -- Seen from an index `h` whose slot is not overwritten, the number stands behind `after`.
  view-filled :
      (h m : ℕ)
      → h + m ≡ after + 1
      → last + 1 < h + 20
      → view f h (m + suc (last - after)) ≡ view e h m ++ (s ∷ view e (after + 1) (last - after))
  unfolding view
  view-filled h m a l =
      view-append f h m (suc (last - after))
      ∙ ap₂ ◌++◌ (view_eq f e h h m (λ i b. filled_below (h + i) (omega arith) (omega arith))) (
          rw a (
            ap₂ ◌∷◌ filled_at (
              view_eq f e (after + 1 + 1) (after + 1) (last - after) (λ i b.
                filled_above (after + 1 + 1 + i) (omega arith) (omega arith)
                ∙ ap (get_elem e)
                    (let k : after + 1 + 1 + i - 1 ≡ after + 1 + i = omega arith in k)))))

-- The same for the queue's own numbers: the window from `h` on, `m` elements before the new one.
view_inserted :
    (q : Queue) (j s h m n : ℕ)
    → IsValid q
    → j < q.length
    → h + m ≡ q.start + j + 1
    → last_index q + 1 < h + 20
    → n ≡ m + suc (q.length - 1 - j)
    → view (filled q.elem (q.start + j) (last_index q) s) h n
      ≡ view q.elem h m ++ (s ∷ view q.elem (q.start + j + 1) (q.length - 1 - j))
view_inserted q j s h m n v l at far size =
    let d : last_index q - (q.start + j) ≡ q.length - 1 - j = omega arith in
    let n' : n ≡ m + suc (last_index q - (q.start + j)) = omega arith in
    ap (view (filled q.elem (q.start + j) (last_index q) s) h) n'
    ∙ view-filled q.elem v.array (q.start + j) (last_index q) s (omega arith) (omega arith) h m at
        far
    ∙ ap (λ k. view q.elem h m ++ (s ∷ view q.elem (q.start + j + 1) k)) d

pub view-suc : (e : List ℕ) (h n : ℕ) → view e h (suc n) ≡ get_elem e h ∷ view e (h + 1) n
unfolding view
view-suc e h n = refl

-- `queue_insert` behind the element `j`: the window has the number there, and has lost its oldest
-- element if the array was full.
pub view-queue_insert :
    (q : Queue) (j s : ℕ)
    → IsValid q
    → j < q.length
    → view_queue (queue_insert q (q.start + j) s)
      ≡ slide
          (q.length == queue_length)
          (view q.elem q.start (suc j) ++ (s ∷ view q.elem (q.start + j + 1) (q.length - 1 - j)))
unfolding queue_insert filled
view-queue_insert q j s v l = elim (Bool-cases (q.length == queue_length)) [
  | inl full ↦
      let a : q.start + 1 + j ≡ q.start + j + 1 = omega arith in
      let b : last_index q + 1 < q.start + 1 + 20 = ground arith in
      let c : q.length ≡ j + suc (q.length - 1 - j) = omega arith in
      rw (full, view-suc)
        (view-wrap (filled q.elem (q.start + j) (last_index q) s) q.start q.length
          ∙ view_inserted q j s (q.start + 1) j q.length v l a b c)
  | inr room ↦
      let a : q.start + suc j ≡ q.start + j + 1 = omega arith in
      let b : last_index q + 1 < q.start + 20 = ground arith in
      let c : q.length + 1 ≡ suc j + suc (q.length - 1 - j) = omega arith in
      rw (room, view-suc)
        (view_inserted q j s q.start (suc j) (q.length + 1) v l a b c ∙ rw view-suc)
]

-- `queue_insert` keeps the representation invariant.
pub queue_insert-IsValid : (q : Queue) (after s : ℕ) → IsValid q → IsValid (queue_insert q after s)
unfolding queue_insert
queue_insert-IsValid q after s v = ground (
  arith,
  length-set (shift_up (last_index q - after) (last_index q) q.elem) ((after + 1) % queue_length) s,
  length-shift_up (last_index q - after) (last_index q) q.elem,
)
