-- ===== src/Vm/Pages/Exit.antt =====
-- The pages of a process that ends.
use project.Base.{
  mem, Nodup, ℕ, ◌+◌, ◌<◌, ◌≡◌, ◌≢◌, refl, sym, ap, subst, ◌∙◌, true, false, List, [], ◌∷◌, arith,
  get_or, ◌==◌, if◌then◌else◌, ℕ_discrete, eq→==, ne→==, get_or-set_self, get_or-set_ne,
}
use project.Paging.{null}
use project.Vm.State.{Vm, in_frame, frame_at, empty_frame, total_pages}
use project.Vm.Frames.{frame_free}
use project.Vm.Frames.Table.{IsConsistent}
use project.Vm.Frames.Effects.{frame_free-IsConsistent}
use project.Vm.Pages.{Space, clear_page, clear_loop, page_clear_all}
use project.Vm.Pages.Return.{same_table-IsConsistent}

-- The frame at `i` is the one of page `p`.
pub record IsFrameOf (vm : Vm) (p i : ℕ) : Type 0 where
  pub inside : i < total_pages
  pub kpage : (frame_at vm i).kpage ≡ (vm.pages p).kpage
  pub taken : (frame_at vm i).upage ≢ null
  pub label : (frame_at vm i).page_pointer ≡ p

-- each page that is recorded as being in a frame has one
pub record IsPlaced (vm : Vm) (ps : List ℕ) : Type 0 where
  pub frame :
      (p : ℕ) → mem p ps ≡ true → (vm.pages p).location ≡ in_frame → (i : ℕ) × IsFrameOf vm p i

-- the number of pages that are in a frame
abbrev pub count_placed : Vm → List ℕ → ℕ
count_placed vm [] = 0
count_placed vm (p ∷ ps) = (if (vm.pages p).location == in_frame then 1 else 0) + count_placed vm ps

-- what is left of the pages
pub record Cleared (vm : Vm) (ps : List ℕ) (vm' : Vm) : Type 0 where
  pub consistent : IsConsistent vm'
  pub counted : vm'.occupancy + count_placed vm ps ≡ vm.occupancy
  pub emptied :
      (p i : ℕ)
      → mem p ps ≡ true
      → (vm.pages p).location ≡ in_frame
      → IsFrameOf vm p i
      → frame_at vm' i ≡ empty_frame (frame_at vm i).kpage
  pub others :
      (i : ℕ) → mem (frame_at vm i).page_pointer ps ≡ false → frame_at vm' i ≡ frame_at vm i
  pub located : (p : ℕ) → mem p ps ≡ true → (vm'.pages p).location ≢ in_frame
  pub pages : (p : ℕ) → mem p ps ≡ false → vm'.pages p ≡ vm.pages p
  pub swap : vm'.swap ≡ vm.swap

clear_page-elsewhere : (vm : Vm) (p : ℕ) → (vm.pages p).location ≢ in_frame → clear_page vm p ≡ vm
unfolding clear_page
clear_page-elsewhere vm p h = rw (ne→== (vm.pages p).location in_frame h) refl

-- What `clear_page` does to the page of frame `i`.
record Freed (vm : Vm) (p i : ℕ) (vm' : Vm) : Type 0 where
  consistent : IsConsistent vm'
  counted : vm'.occupancy + 1 ≡ vm.occupancy
  own : frame_at vm' i ≡ empty_frame (frame_at vm i).kpage
  others : (j : ℕ) → j ≢ i → frame_at vm' j ≡ frame_at vm j
  located : (vm'.pages p).location ≡ 0
  pages : (q : ℕ) → q ≢ p → vm'.pages q ≡ vm.pages q
  swap : vm'.swap ≡ vm.swap

clear_page-Freed :
    (vm : Vm) (p i : ℕ)
    → IsConsistent vm
    → (vm.pages p).location ≡ in_frame
    → IsFrameOf vm p i
    → Freed vm p i (clear_page vm p)
unfolding clear_page frame_free
clear_page-Freed vm p i c here f =
    let (c', count, table) = frame_free-IsConsistent vm i c f.inside f.taken in
    let empty = empty_frame (frame_at vm i).kpage in
    rw (eq→== (vm.pages p).location in_frame here) (
      rw⁻¹ f.kpage (record {
        consistent =
            same_table-IsConsistent (frame_free vm (frame_at vm i).kpage) _ c' refl refl refl;
        counted = count;
        own =
            ap (λ t. get_or t i (empty_frame null)) table
            ∙ get_or-set_self vm.frame_table i empty (empty_frame null)
                (omega (arith, f.inside, c.total));
        others = λ j n.
            ap (λ t. get_or t j (empty_frame null)) table
            ∙ get_or-set_ne vm.frame_table i j empty (empty_frame null) (λ e. n (sym e));
        located = rw (eq→== p p refl) refl;
        pages = λ q n. rw (ne→== q p n) refl;
        swap = refl;
      }))

pages_apart : (vm : Vm) (p q i j : ℕ) → IsFrameOf vm p i → IsFrameOf vm q j → q ≢ p → j ≢ i
pages_apart vm p q i j f g n e =
    n (sym g.label ∙ ap (λ k. (frame_at vm k).page_pointer) e ∙ f.label)

-- what another page's frame is after `clear_page`
IsFrameOf-Freed :
    (vm vm1 : Vm) (p q i j : ℕ)
    → Freed vm p i vm1
    → IsFrameOf vm p i
    → q ≢ p
    → IsFrameOf vm q j
    → IsFrameOf vm1 q j
IsFrameOf-Freed vm vm1 p q i j r f n g =
    let same = r.others j (pages_apart vm p q i j f g n) in
    let page = r.pages q n in
    record {
      inside = g.inside;
      kpage = ap (λ f. f.kpage) same ∙ g.kpage ∙ sym (ap (λ x. x.kpage) page);
      taken = subst (λ f. f.upage ≢ null) (sym same) g.taken;
      label = ap (λ f. f.page_pointer) same ∙ g.label;
    }

mem-tail : (q p : ℕ) (ps : List ℕ) → q ≢ p → mem q (p ∷ ps) ≡ true → mem q ps ≡ true
mem-tail q p ps n m = ground (arith, n, m)

not_head : (q p : ℕ) (ps : List ℕ) → mem q (p ∷ ps) ≡ false → q ≢ p
not_head q p ps m e = ground (arith, m, e)

not_tail : (q p : ℕ) (ps : List ℕ) → mem q (p ∷ ps) ≡ false → mem q ps ≡ false
not_tail q p ps m = ground (arith, m)

both_ways : (q p : ℕ) (ps : List ℕ) → mem q ps ≡ true → q ≡ p → mem p ps ≡ false → ⊥
both_ways q p ps m e n = ground (arith, m, e, n)

count_placed-same :
    (vm vm1 : Vm) (ps : List ℕ)
    → ((q : ℕ) → mem q ps ≡ true → vm1.pages q ≡ vm.pages q)
    → count_placed vm1 ps ≡ count_placed vm ps
count_placed-same vm vm1 [] h = refl
count_placed-same vm vm1 (p ∷ ps) h =
    let here = h p (ground arith) in
    let rest = count_placed-same vm vm1 ps (λ q m. h q (ground (arith, m))) in
    ap (λ x. (if x.location == in_frame then 1 else 0) + count_placed vm1 ps) here
    ∙ ap (λ n. (if (vm.pages p).location == in_frame then 1 else 0) + n) rest

-- a page in front of those that were cleared, which is in no frame
Cleared-elsewhere :
    (vm : Vm) (p : ℕ) (ps : List ℕ) (vm' : Vm)
    → (vm.pages p).location ≢ in_frame
    → mem p ps ≡ false
    → Cleared vm ps vm'
    → Cleared vm (p ∷ ps) vm'
Cleared-elsewhere vm p ps vm' h fresh c = record {
  consistent = c.consistent;
  counted = rw (ne→== (vm.pages p).location in_frame h) (omega (arith, c.counted));
  emptied = λ q i m here f. elim (ℕ_discrete q p) [
    | yes e ↦ absurd (h (ap (λ r. (vm.pages r).location) (sym e) ∙ here))
    | no n ↦ c.emptied q i (mem-tail q p ps n m) here f
  ];
  others = λ i m. c.others i (not_tail _ p ps m);
  located = λ q m. elim (ℕ_discrete q p) [
    | yes e ↦ λ here. h (
        ap (λ x. x.location) (sym (c.pages p fresh))
        ∙ ap (λ r. (vm'.pages r).location) (sym e)
        ∙ here)
    | no n ↦ c.located q (mem-tail q p ps n m)
  ];
  pages = λ q m. c.pages q (not_tail q p ps m);
  swap = c.swap;
}

-- a page in front of those that were cleared after it
Cleared-here :
    (vm vm1 : Vm) (p i : ℕ) (ps : List ℕ) (vm' : Vm)
    → (vm.pages p).location ≡ in_frame
    → mem p ps ≡ false
    → mem null ps ≡ false
    → IsFrameOf vm p i
    → ((j : ℕ) → IsFrameOf vm p j → Freed vm p j vm1)
    → Cleared vm1 ps vm'
    → Cleared vm (p ∷ ps) vm'
Cleared-here vm vm1 p i ps vm' here fresh some f freed c =
    let r = freed i f in
    let apart = λ (q : ℕ) (m : mem q ps ≡ true) (e : q ≡ p). both_ways q p ps m e fresh in
    record {
      consistent = c.consistent;
      counted = rw (eq→== (vm.pages p).location in_frame here) (
          omega (
            arith,
            c.counted,
            r.counted,
            count_placed-same vm vm1 ps (λ q m. r.pages q (apart q m)),
          ));
      emptied = λ q j m placed g. elim (ℕ_discrete q p) [
        | yes e ↦
            let own = (freed j (subst (λ s. IsFrameOf vm s j) e g)).own in
            let blank : mem (frame_at vm1 j).page_pointer ps ≡ false =
              ap (λ x. mem x.page_pointer ps) own ∙ some in
            c.others j blank ∙ own
        | no n ↦
            let page = r.pages q n in
            let frame = r.others j (pages_apart vm p q i j f g n) in
            c.emptied q j (mem-tail q p ps n m) (ap (λ x. x.location) page ∙ placed)
              (IsFrameOf-Freed vm vm1 p q i j r f n g)
            ∙ ap (λ x. empty_frame x.kpage) frame
      ];
      others = λ j m.
          let frame =
            r.others j
              (λ e. not_head _ p ps m (ap (λ k. (frame_at vm k).page_pointer) e ∙ f.label)) in
          c.others j (ap (λ x. mem x.page_pointer ps) frame ∙ not_tail _ p ps m) ∙ frame;
      located = λ q m. elim (ℕ_discrete q p) [
        | yes e ↦ λ in_it.
            let zero_there : (vm'.pages q).location ≡ 0 =
              ap (λ s. (vm'.pages s).location) e
              ∙ ap (λ x. x.location) (c.pages p fresh)
              ∙ r.located in
            omega (arith, zero_there, in_it)
        | no n ↦ c.located q (mem-tail q p ps n m)
      ];
      pages = λ q m. c.pages q (not_tail q p ps m) ∙ r.pages q (not_head q p ps m);
      swap = c.swap ∙ r.swap;
    }

clear_loop-Cleared :
    (ps : List ℕ) (vm : Vm)
    → IsConsistent vm
    → IsPlaced vm ps
    → Nodup ps
    → mem null ps ≡ false
    → Cleared vm ps (clear_loop vm ps)
unfolding clear_loop
clear_loop-Cleared [] vm c placed once some = record {
  consistent = c;
  counted = omega arith;
  emptied = λ p i m h f. absurd (cc);
  others = λ i m. refl;
  located = λ p m. absurd (cc);
  pages = λ p m. refl;
  swap = refl;
}
clear_loop-Cleared (p ∷ ps) vm c placed once some =
    elim (ℕ_discrete (vm.pages p).location in_frame) [
      | no elsewhere ↦
          let rest : IsPlaced vm ps = record {
            frame = λ q m h. placed.frame q (ground (arith, m)) h;
          } in
          let done =
            Cleared-elsewhere vm p ps (clear_loop vm ps) elsewhere once.0
              (clear_loop-Cleared ps vm c rest once.1 (not_tail null p ps some)) in
          subst (λ v. Cleared vm (p ∷ ps) (clear_loop v ps))
            (sym (clear_page-elsewhere vm p elsewhere)) done
      | yes here ↦
          let (i, f) = placed.frame p (ground arith) here in
          let vm1 = clear_page vm p in
          let r = clear_page-Freed vm p i c here f in
          let rest : IsPlaced vm1 ps = record {
            frame = λ q m h.
                let n : q ≢ p = λ e. ground (arith, m, e, once.0) in
                let (j, g) =
                  placed.frame q (ground (arith, m))
                    (ap (λ x. x.location) (sym (r.pages q n)) ∙ h) in
                (j, IsFrameOf-Freed vm vm1 p q i j r f n g);
          } in
          Cleared-here vm vm1 p i ps (clear_loop vm1 ps) here once.0 (not_tail null p ps some) f
            (λ j g. clear_page-Freed vm p j c here g)
            (clear_loop-Cleared ps vm1 r.consistent rest once.1 (not_tail null p ps some))
    ]

-- When a process ends whose pages in frames have their frames labelled with them, `page_clear_all`
-- empties exactly the frames of its pages, counts them out, keeps the table consistent and records
-- none of the pages as being in a frame. It does not touch swap: the slots of its pages that are in
-- swap stay taken.
pub page_clear_all-Cleared :
    (s : Space)
    → IsConsistent s.vm
    → IsPlaced s.vm s.spt
    → Nodup s.spt
    → mem null s.spt ≡ false
    → Cleared s.vm s.spt (page_clear_all s).vm
unfolding page_clear_all
page_clear_all-Cleared s c placed once some = clear_loop-Cleared s.spt s.vm c placed once some
