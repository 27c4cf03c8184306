-- ===== src/Kheap/Free.antt =====
-- `kfree` of kernel/mm/kheap.c against the list of blocks.
use mathlib.Core.List.{append_assoc}
use it_works_os.Base.{
  ℕ, ◌+◌, ◌-◌, ◌%◌, ◌≤◌, ◌<◌, ◌≡◌, ◌⊎◌, refl, sym, ap, ◌∙◌, arith, inl, inr, Bool, true, false, not,
  ◌||◌, List, [], ◌∷◌, ◌++◌, ◌==◌, ltb, leb, Bool-cases,
}
use it_works_os.Kerror.{ok, inval}
use it_works_os.Kheap.{
  Kheap, write_field, is_alloc, kheap_merge, unlink, next_free, prev_header, prev_free, coalesce,
  mark_free, free_block, kfree,
}
use it_works_os.Kheap.Blocks.{
  Block, IsBlock, Seg, total, total-append, count, count-append, count-unlink, free_of,
  free_of-append, used_of, used_of-append, At, Seg-total, Seg-right, Seg-join, Seg-frame,
  is_alloc-mask_clear,
}
use it_works_os.Kheap.Heap.{IsHeap, total-aligned, before_at, from_at}
use it_works_os.Kheap.Merge.{
  vacant, IsLoose, one_at, settled, settle_front, merged, merge-IsLoose, merge-used_of,
}

-- The last element of a list.
data Snoc (bs : List Block) : Type 0 where
  none_before : bs ≡ [] → Snoc bs
  one_before : (ws : List Block) (x : Block) → bs ≡ ws ++ (x ∷ []) → Snoc bs

snoc : (bs : List Block) → Snoc bs
snoc [] = none_before refl
snoc (x ∷ bs) = by (snoc bs)
  where
    by : Snoc bs → Snoc (x ∷ bs)
    by (none_before e) = one_before [] x (rw e refl)
    by (one_before ws y e) = one_before (x ∷ ws) y (ap (λ l. x ∷ l) e)

vacant_of : (x : Block) → x.used ≡ false → x ≡ vacant x.size
vacant_of x e = ground arith

module _ {h : Kheap} {bs : List Block} (v : IsHeap h bs) (p : ℕ)
    (at : At h.kheap_start p bs true) where
  abbrev n : ℕ
  n = at.block.size

  abbrev h1 : Kheap
  h1 = mark_free p h

  abbrev bs1 : List Block
  bs1 = at.left ++ (vacant at.block.size ∷ at.right)

  opened : IsLoose h1 bs1 (one_at p)
  unfolding write_field
  opened =
      let (b, rest) = from_at v at in
      record {
        blocks =
            Seg-join h1 h.kheap_start h.kheap_end p at.left (vacant n ∷ at.right)
              (Seg-frame h h1 h.kheap_start p at.left
                (λ q lo hi. (ground arith, ground arith, ground arith)) (before_at v at))
              (
                record {
                  header = b.header;
                  footer = b.footer;
                  state = ground (arith, is_alloc-mask_clear (h.flags p));
                  large = b.large;
                  aligned = b.aligned;
                },
                Seg-frame h h1 (p + n) h.kheap_end at.right
                    (λ q lo hi. (ground arith, ground (arith, b.large), ground arith)) rest,
              );
        free = λ q.
            rw (free_of-append h.kheap_start at.left (vacant n ∷ at.right), ← at.place)
              (ground (
                arith,
                rw
                    (
                      at.whole,
                      free_of-append h.kheap_start at.left (at.block ∷ at.right),
                      ← at.place,
                      at.state,
                    )
                    at (v.free q),
                count-append q (free_of h.kheap_start at.left) (p ∷ free_of (p + n) at.right),
                count-append q (free_of h.kheap_start at.left) (free_of (p + n) at.right),
              ));
        word = v.word;
        aligned = v.aligned;
        not_null = v.not_null;
      }

  -- What the two tests of `kfree` find.
  abbrev NextView : Bool → Type 0
  NextView false = Unit
  NextView true = (k : ℕ) × (vs : List Block) × (at.right ≡ vacant k ∷ vs)

  no_next : at.right ≡ [] → next_free h1 p ≡ false
  unfolding next_free write_field
  no_next e =
      let (b, rest) = from_at v at in
      let last : p + n ≡ h.kheap_end = rw e at rest in ground (arith, b.header, v.word)

  next_state : (y : Block) (vs : List Block) → at.right ≡ y ∷ vs → next_free h1 p ≡ not y.used
  unfolding next_free write_field
  next_state y vs e =
      let (b, rest) = from_at v at in
      let (c, more) : Seg h (p + n) (y ∷ vs) h.kheap_end = rw e at rest in
      let end = Seg-total h (p + n + y.size) h.kheap_end vs more in
      ground (arith, b.header, b.large, c.state, c.large, v.word, end)

  next_at : (rs : List Block) → at.right ≡ rs → NextView (next_free h1 p)
  next_at [] e = rw (no_next e) tt
  next_at (y ∷ vs) e = elim (Bool-cases y.used) [
    | inl u ↦ rw (next_state y vs e, u) tt
    | inr u ↦ rw (next_state y vs e, u) (y.size, vs, e ∙ ap (λ x. x ∷ vs) (vacant_of y u))
  ]

  next_view : NextView (next_free h1 p)
  next_view = next_at at.right refl

  abbrev PrevView : Bool → Type 0
  PrevView false = Unit
  PrevView true =
      (m : ℕ) × (ws : List Block) × (at.left ≡ ws ++ (vacant m ∷ []))
      × (prev_header h1 p ≡ h.kheap_start + total ws)

  no_prev : at.left ≡ [] → prev_free h1 p ≡ false
  unfolding prev_free
  no_prev e = let first : p ≡ h.kheap_start = at.place ∙ (rw e (omega arith)) in ground arith

  module _ (ws : List Block) (x : Block) (e : at.left ≡ ws ++ (x ∷ [])) where
    prev_place : p ≡ h.kheap_start + total ws + x.size
    prev_place = omega (arith, at.place, ap total e, total-append ws (x ∷ []))

    prev-IsBlock : IsBlock h (h.kheap_start + total ws) x
    prev-IsBlock =
        (Seg-right h h.kheap_start p (h.kheap_start + total ws) ws (x ∷ []) refl
          (rw e at (before_at v at))).0

    prev_at : prev_header h1 p ≡ h.kheap_start + total ws
    unfolding prev_header
    prev_at =
        let there : p - 4 ≡ h.kheap_start + total ws + x.size - 4 = omega (arith, prev_place) in
        rw (there, prev-IsBlock.footer) (omega (arith, prev_place))

    prev_state : prev_free h1 p ≡ not x.used
    unfolding prev_free write_field
    prev_state =
        let there : prev_header h1 p ≡ h.kheap_start + total ws = prev_at in
        let b = prev-IsBlock in let place = prev_place in ground (arith, b.state, b.large)

    prev_case : PrevView (prev_free h1 p)
    prev_case = elim (Bool-cases x.used) [
      | inl u ↦ rw (prev_state, u) tt
      | inr u ↦
          rw (prev_state, u) (x.size, ws, e ∙ ap (λ y. ws ++ (y ∷ [])) (vacant_of x u), prev_at)
    ]

  prev_view : PrevView (prev_free h1 p)
  prev_view = by (snoc at.left)
    where
      by : Snoc at.left → PrevView (prev_free h1 p)
      by (none_before e) = rw (no_prev e) tt
      by (one_before ws x e) = prev_case ws x e

  -- The heap after `kfree`: the blocks in use are those of `bs1`, where the block is vacant.
  record Emptied (h' : Kheap) : Type 0 where
    bs' : List Block
    heap : IsHeap h' bs'
    same : used_of h.kheap_start bs' ≡ used_of h.kheap_start bs1
    same_start : h'.kheap_start ≡ h.kheap_start

  -- The block after is free too, in the list and not the block itself.
  next_listed :
      (k : ℕ) (vs : List Block) → at.right ≡ vacant k ∷ vs → 0 < count (p + n) h1.free_list
  next_listed k vs e =
      let (b, rest) = from_at v at in
      ground (
        arith,
        b.large,
        rw (e, free_of-append h.kheap_start at.left (vacant n ∷ vacant k ∷ vs), ← at.place) at
            (opened.free (p + n)),
        count-append (p + n) (free_of h.kheap_start at.left) (p ∷ (p + n) ∷ free_of (p + n + k) vs),
      )

  -- Joining the block, or what it has become a part of, with the next one.
  module _ (k : ℕ) (vs : List Block) (after : at.right ≡ vacant k ∷ vs) where
    joined_next :
        IsLoose
          (merged h1 p n (unlink (p + n) h1.free_list))
          (at.left ++ (vacant (n + k) ∷ vs))
          (one_at p)
    joined_next =
        merge-IsLoose h1 p n k at.left vs (one_at p) (one_at p) (unlink (p + n) h1.free_list)
          (rw after at opened) at.place
          (λ q. ground (arith, count-unlink q (p + n) h1.free_list, next_listed k vs after))

    next-Emptied : Emptied (coalesce false true (prev_header h1 p) p (p + n) h1)
    unfolding coalesce
    next-Emptied = record {
      bs' = at.left ++ (vacant (n + k) ∷ vs);
      heap = settle_front (merged h1 p n (unlink (p + n) h1.free_list)) _ p joined_next;
      same = rw after (
          merge-used_of h1 p n k at.left vs (one_at p) (one_at p) (unlink (p + n) h1.free_list)
            (rw after at opened) at.place);
      same_start = refl;
    }

  module _ (m : ℕ) (ws : List Block) (before : at.left ≡ ws ++ (vacant m ∷ []))
      (place : prev_header h1 p ≡ h.kheap_start + total ws) where
    adjacent : p ≡ h.kheap_start + total ws + m
    adjacent = prev_place ws (vacant m) before

    shape : bs1 ≡ ws ++ (vacant m ∷ vacant n ∷ at.right)
    shape = rw before (append_assoc ws (vacant m ∷ []) (vacant n ∷ at.right))

    q0 : ℕ
    q0 = h.kheap_start + total ws

    joined_prev : IsLoose (merged h1 q0 m h1.free_list) (ws ++ (vacant (m + n) ∷ at.right)) (λ q. 0)
    unfolding q0
    joined_prev =
        merge-IsLoose h1 q0 m n ws at.right (one_at p) (λ q. 0) h1.free_list (rw shape at opened)
          refl (λ q. ground (arith, adjacent))

    same_prev :
        used_of h.kheap_start (ws ++ (vacant (m + n) ∷ at.right)) ≡ used_of h.kheap_start bs1
    unfolding q0
    same_prev = rw shape (
        merge-used_of h1 q0 m n ws at.right (one_at p) (λ q. 0) h1.free_list (rw shape at opened)
          refl)

    merge_prev : kheap_merge (prev_header h1 p) p h1 ≡ merged h1 q0 m h1.free_list
    unfolding q0
    merge_prev =
        ap (λ l. kheap_merge l p h1) place
        ∙ ap (λ r. kheap_merge (h.kheap_start + total ws) r h1) adjacent

    prev-Emptied : Emptied (coalesce true false (prev_header h1 p) p (p + n) h1)
    unfolding coalesce
    prev-Emptied = record {
      bs' = ws ++ (vacant (m + n) ∷ at.right);
      heap = rw merge_prev (settled joined_prev);
      same = same_prev;
      same_start = refl;
    }

    module _ (k : ℕ) (vs : List Block) (after : at.right ≡ vacant k ∷ vs) where
      h2 : Kheap
      h2 = merged h1 q0 m h1.free_list

      next_place : p + n ≡ q0 + (m + n)
      unfolding q0
      next_place = omega (arith, adjacent)

      joined_both :
          IsLoose
            (merged h2 q0 (m + n) (unlink (p + n) h1.free_list))
            (ws ++ (vacant (m + n + k) ∷ vs))
            (λ q. 0)
      unfolding q0 h2
      joined_both =
          merge-IsLoose h2 q0 (m + n) k ws vs (λ q. 0) (λ q. 0) (unlink (p + n) h1.free_list)
            (rw after at joined_prev) refl
            (λ q.
              ground
                (arith, next_place, count-unlink q (p + n) h1.free_list, next_listed k vs after))

      both-Emptied : Emptied (coalesce true true (prev_header h1 p) p (p + n) h1)
      unfolding coalesce q0 h2
      both-Emptied =
          let e : kheap_merge (prev_header h1 p) (p + n)
                (record (kheap_merge (prev_header h1 p) p h1) {
                  free_list = unlink (p + n) h1.free_list;
                })
              ≡ merged h2 q0 (m + n) (unlink (p + n) h1.free_list) =
            ap
              (λ l.
                kheap_merge l (p + n)
                  (record (kheap_merge l p h1) { free_list = unlink (p + n) h1.free_list }))
              place
            ∙ ap
                (λ r.
                  kheap_merge (h.kheap_start + total ws) (p + n)
                    (record (kheap_merge (h.kheap_start + total ws) r h1) {
                      free_list = unlink (p + n) h1.free_list;
                    }))
                adjacent
            ∙ ap
                (λ r.
                  kheap_merge (h.kheap_start + total ws) r
                    (record h2 { free_list = unlink (p + n) h1.free_list }))
                next_place in
          record {
            bs' = ws ++ (vacant (m + n + k) ∷ vs);
            heap = rw e (settled joined_both);
            same =
                merge-used_of h2 q0 (m + n) k ws vs (λ q. 0) (λ q. 0) (unlink (p + n) h1.free_list)
                  (rw after at joined_prev) refl
                ∙ ap (λ rs. used_of h.kheap_start (ws ++ (vacant (m + n) ∷ rs))) (sym after)
                ∙ same_prev;
            same_start = refl;
          }

  none-Emptied : Emptied (coalesce false false (prev_header h1 p) p (p + n) h1)
  unfolding coalesce
  none-Emptied = record {
    bs' = bs1;
    heap = settle_front h1 bs1 p opened;
    same = refl;
    same_start = refl;
  }

  free_block-Emptied : Emptied (free_block p h)
  unfolding free_block
  free_block-Emptied =
      let (b, rest) = from_at v at in
      rw b.header (by (prev_free h1 p) (next_free h1 p) prev_view next_view)
    where
      by :
          (prev next : Bool)
          → PrevView prev
          → NextView next
          → Emptied (coalesce prev next (prev_header h1 p) p (p + n) h1)
      by false false a b = none-Emptied
      by false true a (k, vs, after) = next-Emptied k vs after
      by true false (m, ws, before, place) b = prev-Emptied m ws before place
      by true true (m, ws, before, place) (k, vs, after) = both-Emptied m ws before place k vs after

-- The block is no longer in use, and every other is as before.
pub record Freed (p : ℕ) (h h' : Kheap) (bs : List Block) (at : At h.kheap_start p bs true)
    : Type 0 where
  pub bs' : List Block
  pub old :
      used_of h.kheap_start bs
      ≡ used_of h.kheap_start at.left ++ ((p, at.block.size) ∷ used_of (p + at.block.size) at.right)
  pub new :
      used_of h.kheap_start bs'
      ≡ used_of h.kheap_start at.left ++ used_of (p + at.block.size) at.right
  pub heap : IsHeap h' bs'
  pub same_start : h'.kheap_start ≡ h.kheap_start

-- `kfree` of the payload of a block in use, unless it starts in the last 24 bytes of the heap,
-- succeeds: the block is no longer in use, every other stays as it is, and the invariant of the heap
-- is kept, whether the neighbours of the block are free or not. A pointer that is too near to the
-- end is refused without a change, also when it is one that `kmalloc` returned.
pub kfree_lem :
    {h : Kheap} {bs : List Block} (p : ℕ)
    → IsHeap h bs
    → (at : At h.kheap_start p bs true)
    → ((p + 16 + 24 < h.kheap_end)
        × (h' : Kheap) × (kfree (p + 16) h ≡ (ok, h'))
        × Freed p h h' bs at)
      ⊎ ((h.kheap_end ≤ p + 16 + 24) × (kfree (p + 16) h ≡ (inval, h)))
unfolding kfree
kfree_lem {h} {bs} p v at =
    let (b, rest) = from_at v at in
    let done = free_block-Emptied v p at in
    let word_aligned : (p + 16) % 4 ≡ 0 =
      omega
        (arith, total-aligned h h.kheap_start p at.left (before_at v at), at.place, v.aligned) in
    let back : p + 16 - 16 ≡ p = omega arith in
    let here : is_alloc (h.flags p) ≡ true = b.state ∙ at.state in
    let not_null : (p + 16 == 0) ≡ false = ground arith in
    let end = Seg-total h (p + at.block.size) h.kheap_end at.right rest in
    elim (Bool-cases (ltb (p + 16) (h.kheap_start + 16) || leb (h.kheap_end - 24) (p + 16))) [
      | inl e ↦ rw (not_null, e) (inr (ground (arith, at.place, b.large, end), refl))
      | inr e ↦
          rw (not_null, e, word_aligned, back, here)
            (inl (
              ground (arith, b.large, end),
              free_block p h,
              refl,
              record {
                bs' = done.bs';
                old =
                    rw
                      (
                        at.whole,
                        used_of-append h.kheap_start at.left (at.block ∷ at.right),
                        ← at.place,
                        at.state,
                      )
                      refl;
                new =
                    done.same
                    ∙ rw
                        (
                          used_of-append h.kheap_start at.left (vacant at.block.size ∷ at.right),
                          ← at.place,
                        )
                        refl;
                heap = done.heap;
                same_start = done.same_start;
              },
            ))
    ]
