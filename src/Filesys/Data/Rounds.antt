-- ===== src/Filesys/Data/Rounds.antt =====
-- The rounds of `inode_write_at` together.
use project.Base.{
  ℕ, zero, suc, ◌+◌, ◌-◌, ◌^◌, ◌≤◌, ◌<◌, ◌≡◌, min, refl, ap, subst, sym, ◌∙◌, true, List, arith,
  Outcome, ok, length, get_or, drop, ℕ_discrete, eq→==, length-drop, take_all,
}
use native.Mathlib.Nat.{le_refl}
use project.Block.{Block}
use project.Filesys.Data.{Inode, chunk_size, write_loop, write_at, read_at}
use project.Filesys.Data.Bytes.{content, bytes_from, bytes_from-ext, take-drop}
use project.Filesys.Data.Reading.{
  IsBacked, sector_of, sector_of-lt, byte_to_sector-inside, chunk_size-bounds, goes_on-true, stops,
  read_at-content,
}
use project.Filesys.Data.Patch.{write_chunk-put}
use project.Filesys.Data.Writing.{Written, after, none-Written, Written-add, put-Written}

write_loop-round :
    (rounds : ℕ) (d : Block) (x : Inode) (size offset : ℕ) (buffer : List ℕ) (bytes_written : ℕ)
    → IsBacked d x
    → size < 2 ^ 31
    → 0 < size
    → offset < x.disk.length
    → let chunk = chunk_size x size offset in
      (r : ℕ) × (write_loop (suc rounds) d x true size offset buffer bytes_written
        ≡ write_loop rounds
            (after d x r offset chunk buffer)
            x
            true
            (size - chunk)
            (offset + chunk)
            (drop chunk buffer)
            (bytes_written + chunk))
unfolding write_loop
write_loop-round rounds d x size offset buffer bytes_written b small some here =
    let (below, fits, in_file, positive) = chunk_size-bounds x size offset in
    let (r, e) =
      write_chunk-put d (sector_of x offset) offset (chunk_size x size offset) buffer
        (sector_of-lt b offset here) b.own (b.whole _) fits in
    (
      r,
      rw
          (
            goes_on-true size offset (chunk_size x size offset) small some (positive some here),
            byte_to_sector-inside x b offset here,
            e,
          )
          refl,
    )

-- the device afterwards, with what the loop returns
abbrev WritesOf :
    Block → Inode → (buffer : List ℕ) → (offset n : ℕ) → Outcome (ℕ × Block) → ℕ → Type 0
WritesOf d x buffer offset n result bytes_written =
    (d' : Block) × (result ≡ ok (bytes_written + n, d')) × Written d x buffer offset n d'

write_loop-Written :
    (rounds : ℕ) (d : Block) (x : Inode) (size offset : ℕ) (buffer : List ℕ) (bytes_written : ℕ)
    → IsBacked d x
    → size ≤ rounds
    → size < 2 ^ 31
    → size ≤ length buffer
    → WritesOf d x buffer offset
        (min size (x.disk.length - offset))
        (write_loop rounds d x true size offset buffer bytes_written)
        bytes_written
unfolding write_loop
write_loop-Written zero d x size offset buffer w b h small given =
    let nothing : min size (x.disk.length - offset) ≡ 0 = omega arith in
    rw nothing (d, ap (λ k. ok (k, d)) (omega arith), none-Written d x buffer offset b)
write_loop-Written (suc rounds) d x size offset buffer w b h small given =
    let chunk = chunk_size x size offset in
    let left = min size (x.disk.length - offset) in
    let (below, fits, in_file, positive) = chunk_size-bounds x size offset in
    elim (ℕ_discrete left 0) [
      | yes none_left ↦ (
        d,
        rw (stops x size offset small none_left) (ap (λ k. ok (k, d)) (omega (arith, none_left))),
        subst (λ k. Written d x buffer offset k d) (sym none_left)
            (none-Written d x buffer offset b),
      )
      | no some_left ↦
          let more : 0 < chunk = positive (omega arith) (omega arith) in
          let here : offset < x.disk.length = omega arith in
          let (r, round) =
            write_loop-round rounds d x size offset buffer w b small (omega arith) here in
          let chunk_written =
            put-Written d x r offset chunk buffer b fits in_file here (omega arith) in
          let (d', rest, rest_written) =
            write_loop-Written rounds (after d x r offset chunk buffer) x (size - chunk)
              (offset + chunk) (drop chunk buffer) (w + chunk) chunk_written.backed (omega arith)
              (omega arith) (omega (arith, length-drop chunk buffer)) in
          let sum : chunk + min (size - chunk) (x.disk.length - (offset + chunk)) ≡ left =
            omega arith in
          (
            d',
            round ∙ rest ∙ ap (λ k. ok (k, d')) (omega (arith, sum)),
            subst (λ k. Written d x buffer offset k d') sum
                (Written-add chunk_written rest_written),
          )
    ]

-- `inode_write_at` of an inode whose sectors are on the device and to which writes are not denied:
-- it returns the number of bytes asked for, or as there are up to the end of the file, and these
-- stand in the inode's data afterwards; nothing else on the device changes.
pub write_at-Written :
    (d : Block) (x : Inode) (buffer : List ℕ) (size offset : ℕ)
    → IsBacked d x
    → x.deny_write_cnt ≡ 0
    → size < 2 ^ 31
    → size ≤ length buffer
    → let n = min size (x.disk.length - offset) in
      (d' : Block) × (write_at d x true buffer size offset ≡ ok (n, d'))
      × Written d x buffer offset n d'
unfolding write_at
write_at-Written d x buffer size offset b allowed small given =
    let (d', e, w) =
      write_loop-Written size d x size offset buffer 0 b (le_refl size) small given in
    (d', rw (eq→== x.deny_write_cnt 0 allowed) (e ∙ ap (λ k. ok (k, d')) (omega arith)), w)

-- Bytes written inside the file by `inode_write_at` are what `inode_read_at` then returns.
pub read_at-write_at :
    (d : Block) (x : Inode) (buffer : List ℕ) (offset : ℕ) {d' : Block} {n : ℕ}
    → IsBacked d x
    → x.deny_write_cnt ≡ 0
    → length buffer < 2 ^ 31
    → offset + length buffer ≤ x.disk.length
    → write_at d x true buffer (length buffer) offset ≡ ok (n, d')
    → (r : ℕ) × (read_at d' x true (length buffer) offset ≡ ok (buffer, record d' { read_cnt = r }))
read_at-write_at d x buffer offset {d'} {n} b allowed small fits run =
    let (d'', writes, w) =
      write_at-Written d x buffer (length buffer) offset b allowed small (le_refl _) in
    let same : d' ≡ d'' = cc in
    let back =
      subst (λ e. Written d x buffer offset (min (length buffer) (x.disk.length - offset)) e)
        (sym same) w in
    let (r, reads) = read_at-content d' x (length buffer) offset back.backed small in
    let all_of_it : min (length buffer) (x.disk.length - offset) ≡ length buffer = omega arith in
    let bytes : bytes_from (content d' x) offset (length buffer) ≡ buffer =
      bytes_from-ext (content d' x) (λ i. get_or buffer i 0) offset 0 (length buffer)
        (λ i lt. back.inside i (omega (arith, lt)) ∙ ap (λ k. get_or buffer k 0) (omega arith))
      ∙ sym (take-drop buffer 0 (length buffer) (omega arith))
      ∙ take_all (length buffer) buffer (le_refl _) in
    (
      r,
      reads
          ∙ ap (λ k. ok (bytes_from (content d' x) offset k, record d' { read_cnt = r })) all_of_it
          ∙ ap (λ l. ok (l, record d' { read_cnt = r })) bytes,
    )
