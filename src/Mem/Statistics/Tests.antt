-- ===== src/Mem/Statistics/Tests.antt =====
-- statistics_mem_info: the counters of two classes, printed.
use jujube.Base.{
  ℕ, ◌+◌, ◌≡◌, refl, none, some, List, [], ◌∷◌, ◌++◌, length, take, replicate, arith, ◌==◌,
  if◌then◌else◌,
}
use jujube.Mem.{Memory, Stat, mem_module_init}
use jujube.Mem.Init.{static_memory}
use jujube.Print.{print_int, print_unsigned, print_digits, snprintf}
use jujube.Mem.Class.{block_size}
use jujube.Mem.Statistics.{
  statistics_mem_info, class_line, class_bytes, total_line, is_counted, blocks_of, print_from,
  print_class, print_total, sub_size,
}
use jujube.Mem.Statistics.Fits.{statistics_mem_info-Sized}
use jujube.Mem.Statistics.Reports.{report, lines, total_from}
use jujube.Mem.Statistics.Spec.{IsReport, statistics_mem_info-IsReport}

-- Two blocks of 16 bytes, one of them free, and one of 64.
abbrev two_classes : ℕ → Stat
two_classes i =
    if i == 0
    then record { blocks_used = 1; blocks_free = 1 }
    else if i == 2
    then record { blocks_used = 1; blocks_free = 0 }
    else record { blocks_used = 0; blocks_free = 0 }

abbrev memory : Memory
memory = record (mem_module_init static_memory) { stats = two_classes }

-- 16: 96,1,1 and 64: 96,1,0 and Total size:192
report_size : length (report 32 memory) ≡ 37
unfolding report lines total_from total_line class_line class_bytes is_counted blocks_of print_int
    print_unsigned print_digits block_size
report_size = refl

statistics_mem_info-Sized_example :
    (r : List ℕ × ℕ) × (statistics_mem_info 32 memory (replicate 30 7) 30 ≡ some r)
    × (length r.0 ≡ 30)
unfolding replicate
statistics_mem_info-Sized_example =
    statistics_mem_info-Sized 32 30 (omega arith) (omega arith) memory (replicate 30 7) refl

statistics_mem_info-IsReport_example :
    (text : List ℕ) × (new : List ℕ) × IsReport 32 memory text
    × (statistics_mem_info 32 memory (replicate 64 7) 64 ≡ some (new, length text))
    × (take (length text + 1) new ≡ text ++ 0 ∷ [])
unfolding replicate
statistics_mem_info-IsReport_example =
    statistics_mem_info-IsReport 32 64 memory (replicate 64 7) (omega arith) refl
      (omega (arith, report_size))

-- An array of two bytes is written behind its end.
too_small : statistics_mem_info 32 memory (replicate 2 7) 2 ≡ none
unfolding statistics_mem_info print_from print_class print_total snprintf sub_size class_line
    class_bytes is_counted blocks_of print_int print_unsigned print_digits block_size replicate
    total_line
too_small = refl
