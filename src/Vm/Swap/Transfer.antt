-- ===== src/Vm/Swap/Transfer.antt =====
-- Moving a page to and from the eight sectors of a slot.
use mathlib.Core.List.{append_assoc, append-nil}
use project.Base.{
  ℕ, zero, suc, ◌+◌, ◌*◌, ◌/◌, ◌%◌, ◌<◌, ◌≤◌, ◌≡◌, ◌≢◌, refl, sym, ap, ◌∙◌, ◌⊎◌, inl, inr, true,
  false, ok, panic, arith, word_mod, minus, ◌==◌, if◌then◌else◌, add32, List, [], ◌++◌, take, drop,
  length, lt→ltb, ne→==, eq→==, take-add, take_all, ℕ_discrete,
}
use project.Bitmap.Bounds.{SameShape-IsValid}
use project.Bitmap.Bit.{set_bit-WasSet}
use project.Block
use project.Block.{Block, sector_size}
use project.Paging.{page_size}
use project.Vm.Swap.{Swap, get_free, read_loop, swap_read, write_loop, swap_write}
use project.Vm.Swap.Slots.{IsValid, used, IsLowest, Marks, get_free_lem}

-- the bytes of `n` sectors from `s` on
pub page_at : Block → (s n : ℕ) → List ℕ
page_at d s zero = []
page_at d s (suc n) = d.sectors s ++ page_at d (s + 1) n

page_at-eq :
    (d d' : Block) (n s : ℕ)
    → ((k : ℕ) → s ≤ k → k < s + n → d'.sectors k ≡ d.sectors k)
    → page_at d' s n ≡ page_at d s n
unfolding page_at
page_at-eq d d' zero s same = refl
page_at-eq d d' (suc n) s same = rw (
  same s (omega arith) (omega arith),
  page_at-eq d d' n (s + 1) (λ k p q. same k (omega arith) (omega arith)),
)

-- A block device that differs from `d` at most in its counters and in the sectors from `s` to `e`.
record Within (d : Block) (s e : ℕ) (d' : Block) : Type 0 where
  size : d'.size ≡ d.size
  foreign : d'.foreign ≡ d.foreign
  outside : (k : ℕ) → (k < s) ⊎ (e ≤ k) → d'.sectors k ≡ d.sectors k

read-ok :
    (d : Block) (s : ℕ)
    → s < d.size
    → (d' : Block) × (Block.read d s ≡ ok (d.sectors s, d'))
      × (d'.size ≡ d.size)
      × (d'.foreign ≡ d.foreign)
      × (d'.sectors ≡ d.sectors)
unfolding Block.read
read-ok d s h = (
  record d { read_cnt = (d.read_cnt + 1) % 0x1_0000_0000_0000_0000 },
  rw (lt→ltb s d.size h) refl,
  refl,
  refl,
  refl,
)

read_loop-page_at :
    (n : ℕ) (d : Block) (s : ℕ) (out : List ℕ)
    → s + n ≤ d.size
    → d.size < word_mod
    → (d' : Block) × (read_loop n d s out ≡ ok (out ++ page_at d s n, d'))
      × (d'.size ≡ d.size)
      × (d'.foreign ≡ d.foreign)
      × (d'.sectors ≡ d.sectors)
unfolding read_loop page_at
read_loop-page_at zero d s out h w = (d, rw append-nil, refl, refl, refl)
read_loop-page_at (suc n) d s out h w =
    let (d1, e1, size1, own1, same1) = read-ok d s (omega arith) in
    let (d2, e2, size2, own2, same2) =
      read_loop-page_at n d1 (s + 1) (out ++ d.sectors s) (omega arith) (omega arith) in
    let next : add32 s 1 ≡ s + 1 = omega arith in
    (
      d2,
      rw (e1, next, e2, append_assoc, page_at-eq d d1 n (s + 1) (λ k _ _. ap (λ f. f k) same1))
          refl,
      size2 ∙ size1,
      own2 ∙ own1,
      same2 ∙ same1,
    )

written : Block → (s : ℕ) → List ℕ → Block
written d s buffer = record d {
  write_cnt = (d.write_cnt + 1) % 0x1_0000_0000_0000_0000;
  sectors = λ k. if k == s then buffer else d.sectors k;
}

write-ok :
    (d : Block) (s : ℕ) (buffer : List ℕ)
    → s < d.size
    → d.foreign ≡ false
    → Block.write d s buffer ≡ ok (written d s buffer)
unfolding Block.write written
write-ok d s buffer h own = rw (lt→ltb s d.size h, own) refl

-- The sectors from `s` on hold the buffer, and no other sector has changed.
record Wrote (d : Block) (s n : ℕ) (buffer : List ℕ) (d' : Block) : Type 0 where
  within : Within d s (s + n) d'
  page : page_at d' s n ≡ take (n * sector_size) buffer

write_loop-Wrote :
    (n : ℕ) (d : Block) (s : ℕ) (buffer : List ℕ)
    → s + n ≤ d.size
    → d.size < word_mod
    → d.foreign ≡ false
    → (d' : Block) × (write_loop n d s buffer ≡ ok d') × Wrote d s n buffer d'
unfolding write_loop page_at written
write_loop-Wrote zero d s buffer h w own = (
  d,
  refl,
  record { within = record { size = refl; foreign = refl; outside = λ k p. refl }; page = refl },
)
write_loop-Wrote (suc n) d s buffer h w own =
    let d1 = written d s (take sector_size buffer) in
    let (d2, e, r) =
      write_loop-Wrote n d1 (s + 1) (drop sector_size buffer) (omega arith) (omega arith) (own) in
    let next : add32 s 1 ≡ s + 1 = omega arith in
    let first : d2.sectors s ≡ take sector_size buffer =
      r.within.outside s (inl (omega arith)) ∙ rw (eq→== s s refl) refl in
    let split : suc n * sector_size ≡ sector_size + n * sector_size = omega arith in
    (
      d2,
      rw (write-ok d s (take sector_size buffer) (omega arith) own, next) e,
      record {
        within = record {
          size = r.within.size ∙ refl;
          foreign = r.within.foreign ∙ refl;
          outside = λ k p. r.within.outside k (omega arith) ∙ rw (ne→== k s (omega arith)) refl;
        };
        page = rw (first, r.page, split, take-add sector_size (n * sector_size) buffer) refl;
      },
    )

-- Slot `i` is taken, and its sectors hold `bytes`.
pub record Stored (s : Swap) (i : ℕ) (bytes : List ℕ) : Type 0 where
  pub inside : i < s.free_bitmap.bit_cnt
  pub taken : used s i ≡ true
  pub page : page_at s.device (i * 8) 8 ≡ bytes

-- What `swap_write` to slot `i` leaves behind.
pub record Saved (s : Swap) (i : ℕ) (buffer : List ℕ) (s' : Swap) : Type 0 where
  pub valid : IsValid s'
  pub stored : Stored s' i buffer
  pub others : (j : ℕ) (bytes : List ℕ) → j ≢ i → Stored s j bytes → Stored s' j bytes
  pub slots : (j : ℕ) → j ≢ i → used s' j ≡ used s j

-- With a slot free, `swap_write` of a page puts it in the lowest one, returns that slot's first
-- sector, and spares every other stored page; with none free it panics.
pub swap_write-Saved :
    (s : Swap) (buffer : List ℕ)
    → IsValid s
    → length buffer ≡ page_size
    → ((i : ℕ) × (s' : Swap) × (swap_write s buffer ≡ ok (i * 8, s'))
        × IsLowest s i
        × Saved s i buffer s')
      ⊎ ((swap_write s buffer ≡ panic) × ((j : ℕ) → j < s.free_bitmap.bit_cnt → used s j ≡ true))
unfolding swap_write
swap_write-Saved s buffer v whole = step (get_free_lem s v)
  where
    step :
        (((i : ℕ) × (s' : Swap) × (get_free s ≡ ok (i * 8, s')) × IsLowest s i × Marks s i true s')
          ⊎ ((get_free s ≡ panic) × ((j : ℕ) → j < s.free_bitmap.bit_cnt → used s j ≡ true)))
        → ((i : ℕ) × (s' : Swap) × (swap_write s buffer ≡ ok (i * 8, s'))
            × IsLowest s i
            × Saved s i buffer s')
          ⊎ ((swap_write s buffer ≡ panic)
              × ((j : ℕ) → j < s.free_bitmap.bit_cnt → used s j ≡ true))
    step (inr (e, full)) = inr (rw e refl, full)
    step (inl (i, s1, e, low, m)) =
        let size : s1.device.size ≡ s.device.size = ap (λ d. d.size) m.device in
        let own : s1.device.foreign ≡ false = ap (λ d. d.foreign) m.device ∙ v.own in
        let (d, e', w) =
          write_loop-Wrote 8 s1.device (i * 8) buffer (omega (arith, v.room, low.inside, size))
            (omega (arith, v.word, size)) own in
        inl (
          i,
          record s1 { device = d },
          rw (e, e') refl,
          low,
          record {
            valid = record {
              bitmap = SameShape-IsValid m.bitmap.shape v.bitmap;
              room = omega (arith, m.bitmap.shape.size, w.within.size, size, v.room);
              word = omega (arith, w.within.size, size, v.word);
              own = w.within.foreign ∙ own;
            };
            stored = record {
              inside = omega (arith, low.inside, m.bitmap.shape.size);
              taken = m.bitmap.bits i ∙ rw (eq→== i i refl) refl;
              page = w.page ∙ take_all (8 * sector_size) buffer (omega arith);
            };
            others = λ j bytes ne st. record {
              inside = omega (arith, st.inside, m.bitmap.shape.size);
              taken = m.bitmap.bits j ∙ rw (ne→== i j (λ x. ne (sym x))) st.taken;
              page =
                  page_at-eq s.device d 8 (j * 8) (λ k p q.
                    w.within.outside k (omega arith) ∙ ap (λ f. f k) (ap (λ b. b.sectors) m.device))
                  ∙ st.page;
            };
            slots = λ j ne. m.bitmap.bits j ∙ rw (ne→== i j (λ x. ne (sym x))) refl;
          },
        )

-- What `swap_read` of slot `i` leaves behind.
pub record Released (s : Swap) (i : ℕ) (s' : Swap) : Type 0 where
  pub valid : IsValid s'
  pub free : used s' i ≡ false
  pub others : (j : ℕ) (bytes : List ℕ) → j ≢ i → Stored s j bytes → Stored s' j bytes
  pub slots : (j : ℕ) → j ≢ i → used s' j ≡ used s j

-- `swap_read` of a stored page gives its bytes, sets the page's location to -1, frees its slot and
-- spares every other stored page.
pub swap_read-Released :
    (s : Swap) (i : ℕ) (bytes : List ℕ)
    → IsValid s
    → Stored s i bytes
    → (s' : Swap) × (swap_read s (i * 8) ≡ ok (bytes, minus 1, s')) × Released s i s'
unfolding swap_read
swap_read-Released s i bytes v st =
    let (d, e, size, own, same) =
      read_loop-page_at 8 s.device (i * 8) [] (omega (arith, v.room, st.inside)) v.word in
    let slot : i * 8 / 8 ≡ i = omega arith in
    let (b, e', w) = set_bit-WasSet i false v.bitmap st.inside in
    (
      record { device = d; free_bitmap = b },
      rw (e, slot, e', st.page) refl,
      record {
        valid = record {
          bitmap = SameShape-IsValid w.shape v.bitmap;
          room = omega (arith, w.shape.size, size, v.room);
          word = omega (arith, size, v.word);
          own = own ∙ v.own;
        };
        free = w.bits i ∙ rw (eq→== i i refl) refl;
        others = λ j bytes' ne other. record {
          inside = omega (arith, other.inside, w.shape.size);
          taken = w.bits j ∙ rw (ne→== i j (λ x. ne (sym x))) other.taken;
          page = page_at-eq s.device d 8 (j * 8) (λ k p q. ap (λ f. f k) same) ∙ other.page;
        };
        slots = λ j ne. w.bits j ∙ rw (ne→== i j (λ x. ne (sym x))) refl;
      },
    )

-- A page that goes out to swap comes back byte for byte, and the slots are as before.
pub swap_read-swap_write :
    (s : Swap) (buffer : List ℕ) {sector : ℕ} {s1 : Swap}
    → IsValid s
    → length buffer ≡ page_size
    → swap_write s buffer ≡ ok (sector, s1)
    → (s2 : Swap) × (swap_read s1 sector ≡ ok (buffer, minus 1, s2))
      × IsValid s2
      × ((j : ℕ) → used s2 j ≡ used s j)
swap_read-swap_write s buffer {sector} {s1} v whole done = step (swap_write-Saved s buffer v whole)
  where
    back :
        (i : ℕ) (s' : Swap)
        → IsLowest s i
        → Saved s i buffer s'
        → (s2 : Swap) × (swap_read s' (i * 8) ≡ ok (buffer, minus 1, s2))
          × IsValid s2
          × ((j : ℕ) → used s2 j ≡ used s j)
    back i s' low saved =
        let (s2, e, r) = swap_read-Released s' i buffer saved.valid saved.stored in
        (
          s2,
          e,
          r.valid,
          λ j. elim (ℕ_discrete j i) [
            | yes same ↦ rw same (r.free ∙ sym low.free)
            | no ne ↦ r.slots j ne ∙ saved.slots j ne
          ],
        )

    step :
        (((i : ℕ) × (s' : Swap) × (swap_write s buffer ≡ ok (i * 8, s'))
            × IsLowest s i
            × Saved s i buffer s')
          ⊎ ((swap_write s buffer ≡ panic)
              × ((j : ℕ) → j < s.free_bitmap.bit_cnt → used s j ≡ true)))
        → (s2 : Swap) × (swap_read s1 sector ≡ ok (buffer, minus 1, s2))
          × IsValid s2
          × ((j : ℕ) → used s2 j ≡ used s j)
    step (inr (e, full)) = absurd (cc (sym done ∙ e))
    step (inl (i, s', e, low, saved)) =
        let at : sector ≡ i * 8 = cc (sym done ∙ e) in
        let swap : s1 ≡ s' = cc (sym done ∙ e) in rw (at, swap) (back i s' low saved)
