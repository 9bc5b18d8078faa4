-- ===== src/Mem/Statistics/Reports.antt =====
-- The text of statistics_mem_info, where the array has room for it.
use mathlib.Core.List.{append_assoc, append-nil}
use jujube.Base.{
  ℕ, zero, suc, ◌+◌, ◌-◌, ◌%◌, ◌^◌, ◌≤◌, ◌<◌, ◌≡◌, ◌∙◌, sym, ap, subst, refl, true, false, some,
  List, [], ◌∷◌, ◌++◌, length, length-append, take, take-take, take_all, take-append_add,
  take-append_le, take-splice, splice, arith, ltb, if◌then◌else◌, Bool-cases, inl, inr,
}
use jujube.Print.{snprintf, snprintf-rest}
use jujube.Mem.{Memory, Stat}
use jujube.Mem.Class.{type_max}
use jujube.Mem.Statistics.{
  Printed, sub_size, print_class, print_from, print_total, statistics_mem_info, is_counted,
  class_line, class_bytes, total_line,
}
use jujube.Mem.Statistics.Fits.{sub_size-sub}

-- The lines of the classes from `i` on that have blocks, and the sum of their bytes.
unfoldable pub lines : (offset : ℕ) → (ℕ → Stat) → (rounds i : ℕ) → List ℕ
lines offset stats zero i = []
lines offset stats (suc n) i =
    (if is_counted (stats i) then class_line offset i (stats i) else [])
    ++ lines offset stats n (i + 1)

unfoldable pub total_from : (offset : ℕ) → (ℕ → Stat) → (rounds i total : ℕ) → ℕ
total_from offset stats zero i total = total
total_from offset stats (suc n) i total =
    total_from offset stats n (i + 1)
      (if is_counted (stats i) then (total + class_bytes offset i (stats i)) % 2 ^ 64 else total)

-- All of the text.
unfoldable pub report : (offset : ℕ) → Memory → List ℕ
report offset m =
    lines offset m.stats type_max 0 ++ total_line (total_from offset m.stats type_max 0 0)

-- The array begins with `text`, behind which the next line goes.
record Text (buff_sz : ℕ) (text : List ℕ) (total : ℕ) (p : Printed) : Type 0 where
  size : length p.buff ≡ buff_sz
  cur : p.cur_sz ≡ length text
  front : take p.cur_sz p.buff ≡ text
  sum : p.total ≡ total

-- A text that has room is written whole, with its zero.
snprintf-whole :
    (buff pre text : List ℕ) (off : ℕ)
    → off ≡ length pre
    → take off buff ≡ pre
    → off + length text < length buff
    → (new : List ℕ) × (snprintf buff off (length buff - off) text ≡ some new)
      × (length new ≡ length buff)
      × (take (off + length text) new ≡ pre ++ text)
      × (take (off + length text + 1) new ≡ pre ++ (text ++ 0 ∷ []))
snprintf-whole buff pre text off at front room =
    let (written, same) = snprintf-rest buff off text (omega arith) in
    let all = take_all (length buff - off - 1) text (omega arith) in
    let out = text ++ 0 ∷ [] in
    let new = splice buff off out in
    let size : off + length out ≡ off + length text + 1 =
      omega (arith, length-append text (0 ∷ [])) in
    let long : take (off + length text + 1) new ≡ pre ++ out =
      ap (λ n. take n new) (sym size)
      ∙ (take-splice buff off out (omega arith) ∙ ap (λ x. x ++ out) front) in
    let part : take (off + length text) new ≡ pre ++ text =
      sym (take-take (off + length text) (off + length text + 1) new (omega arith))
      ∙ ap (take (off + length text)) long
      ∙ take-append_add off (length text) pre out at
      ∙ ap (◌++◌ pre) (
          take-append_le (length text) text (0 ∷ []) (omega arith)
          ∙ take_all (length text) text (omega arith)) in
    (
      new,
      written ∙ ap (λ x. some (splice buff off (x ++ 0 ∷ []))) all,
      ap (λ x. length (splice buff off (x ++ 0 ∷ []))) (sym all) ∙ same,
      part,
      long,
    )

-- What a class adds to the text and to the sum.
abbrev part : (offset i : ℕ) → Stat → List ℕ
part offset i s = if is_counted s then class_line offset i s else []

abbrev sum_with : (offset i : ℕ) → Stat → ℕ → ℕ
sum_with offset i s t = if is_counted s then (t + class_bytes offset i s) % 2 ^ 64 else t

module _ (offset buff_sz : ℕ) (small : buff_sz < 2 ^ 64) where
  -- The size that snprintf(3) is given is the rest of the array.
  rest_size :
      (p : Printed)
      → length p.buff ≡ buff_sz
      → p.cur_sz ≤ buff_sz
      → sub_size buff_sz p.cur_sz ≡ length p.buff - p.cur_sz
  rest_size p size le = sub_size-sub buff_sz p.cur_sz le small ∙ ap (λ x. x - p.cur_sz) (sym size)

  print_class-Text :
      (i : ℕ) (s : Stat) (p : Printed) (pre : List ℕ) (t : ℕ)
      → Text buff_sz pre t p
      → length pre + length (part offset i s) < buff_sz
      → (q : Printed) × (print_class offset buff_sz i s p ≡ some q)
        × Text buff_sz (pre ++ part offset i s) (sum_with offset i s t) q
  unfolding print_class
  print_class-Text i s p pre t v room = elim (Bool-cases (is_counted s)) [
    | inr empty ↦ rw empty (p, refl, subst (λ x. Text buff_sz x t p) (sym (append-nil pre)) v)
    | inl counted ↦
        let line = class_line offset i s in
        let here : length pre + length line < buff_sz =
          subst (λ b. length pre + length (if b then line else []) < buff_sz) counted room in
        let (new, written, same, front, long) =
          snprintf-whole p.buff pre line p.cur_sz v.cur v.front
            (omega (arith, v.cur, v.size, here)) in
        let n = rest_size p v.size (omega (arith, v.cur, here)) in
        let q : Printed = record {
          buff = new;
          cur_sz = p.cur_sz + length line;
          total = (p.total + class_bytes offset i s) % 2 ^ 64;
        } in
        rw (counted, n, written)
          (
            q,
            refl,
            record {
              size = same ∙ v.size;
              cur = omega (arith, v.cur, length-append pre line);
              front = front;
              sum = ap (λ x. (x + class_bytes offset i s) % 2 ^ 64) v.sum;
            },
          )
  ]

  print_from-Text :
      (stats : ℕ → Stat) (n i : ℕ) (p : Printed) (pre : List ℕ) (t : ℕ)
      → Text buff_sz pre t p
      → length pre + length (lines offset stats n i) + 3 ≤ buff_sz
      → (q : Printed) × (print_from offset buff_sz stats n i p ≡ some q)
        × Text buff_sz (pre ++ lines offset stats n i) (total_from offset stats n i t) q
  unfolding print_from lines total_from
  print_from-Text stats zero i p pre t v room =
      (p, refl, subst (λ x. Text buff_sz x t p) (sym (append-nil pre)) v)
  print_from-Text stats (suc n) i p pre t v room =
      let here = part offset i (stats i) in
      let behind = lines offset stats n (i + 1) in
      let sizes = length-append here behind in
      let (q, e, w) = print_class-Text i (stats i) p pre t v (omega (arith, sizes)) in
      let more : ltb (sub_size buff_sz 3) q.cur_sz ≡ false = ground (
        arith,
        sub_size-sub buff_sz 3 (omega arith) small,
        w.cur,
        length-append pre here,
        sizes,
        room,
      ) in
      let (r, e', u) =
        print_from-Text stats n (i + 1) q (pre ++ here) (sum_with offset i (stats i) t) w
          (omega (arith, sizes, length-append pre here)) in
      (
        r,
        rw (print_from, e, more) e',
        subst
            (λ x.
              Text buff_sz x (total_from offset stats n (i + 1) (sum_with offset i (stats i) t)) r)
            (append_assoc pre here behind) u,
      )

  print_total-Text :
      (p : Printed) (pre : List ℕ)
      → Text buff_sz pre p.total p
      → length pre + length (total_line p.total) < buff_sz
      → (q : Printed) × (print_total buff_sz p ≡ some q)
        × (q.cur_sz ≡ length (pre ++ total_line p.total))
        × (take (length (pre ++ total_line p.total) + 1) q.buff
            ≡ (pre ++ total_line p.total) ++ 0 ∷ [])
  unfolding print_total
  print_total-Text p pre v room =
      let line = total_line p.total in
      let (new, written, same, front, long) =
        snprintf-whole p.buff pre line p.cur_sz v.cur v.front
          (omega (arith, v.cur, v.size, room)) in
      let n = rest_size p v.size (omega (arith, v.cur, room)) in
      let short : ltb p.cur_sz buff_sz ≡ true = ground (arith, v.cur, room) in
      let size : p.cur_sz + length line ≡ length (pre ++ line) =
        omega (arith, v.cur, length-append pre line) in
      (
        record { buff = new; cur_sz = p.cur_sz + length line; total = p.total },
        rw (short, n, written) refl,
        size,
        ap (λ k. take (k + 1) new) (sym size) ∙ (long ∙ sym (append_assoc pre line (0 ∷ []))),
      )

  -- Where the array has room for the text and its zero, statistics_mem_info writes it at the start
  -- of the array and returns its length: a line for each class that has blocks, in the order of
  -- their sizes, and the sum of their bytes.
  pub statistics_mem_info-report :
      (m : Memory) (buff : List ℕ)
      → length buff ≡ buff_sz
      → length (report offset m) < buff_sz
      → (new : List ℕ) × (statistics_mem_info offset m buff buff_sz
          ≡ some (new, length (report offset m)))
        × (take (length (report offset m) + 1) new ≡ report offset m ++ 0 ∷ [])
  unfolding statistics_mem_info report total_line
  statistics_mem_info-report m buff size room =
      let start : Printed = record { buff = buff; cur_sz = 0; total = 0 } in
      let classes = lines offset m.stats type_max 0 in
      let total = total_from offset m.stats type_max 0 0 in
      let sizes = length-append classes (total_line total) in
      let (p, e, v) =
        print_from-Text m.stats type_max 0 start [] 0
          (record { size = size; cur = refl; front = refl; sum = refl })
          (omega (arith, sizes, room)) in
      let line = ap total_line v.sum in
      let (q, e', cur, long) =
        print_total-Text p classes
          (record { size = v.size; cur = v.cur; front = v.front; sum = refl })
          (omega (arith, sizes, room, ap length line)) in
      let whole : classes ++ total_line p.total ≡ report offset m = ap (◌++◌ classes) line in
      (
        q.buff,
        rw (statistics_mem_info, e, e', cur, whole) refl,
        subst (λ x. take (length x + 1) q.buff ≡ x ++ 0 ∷ []) whole long,
      )
