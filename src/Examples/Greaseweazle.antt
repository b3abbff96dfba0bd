-- ===== src/Examples/Greaseweazle.antt =====
-- The results about Greaseweazle streams at small concrete inputs.
use fdx.Prelude.{ℕ, ◌+◌, ◌-◌, ◌%◌, ◌^◌, ◌*◌, ◌≡◌, arith, map, [], ◌∷◌, ◌++◌}
use fdx.Greaseweazle.Stream.{interval_stream, transitions, items_from}
use fdx.Greaseweazle.Rates.{stream_rates, turn_rates}
use fdx.Greaseweazle.Rates.Counted.{stream_rates-encoded}
use fdx.Greaseweazle.Intervals.{index_bytes, total, since, items_from-encoded}

-- 14 nanoseconds per tick.
abbrev ns : ℕ → ℕ
ns ticks = ticks * 14

items_from-encoded_example :
    items_from ns 0
      (interval_stream (100 ∷ [])
        ++ (index_bytes 5
            ++ (interval_stream (144 ∷ 288 ∷ 1000 ∷ [])
                ++ (index_bytes 7 ++ interval_stream (200 ∷ [])))))
      0
      []
    ≡ transitions (map (since ns (ns 100)) (244 ∷ 532 ∷ 1532 ∷ []))
items_from-encoded_example =
    items_from-encoded ns (100 ∷ []) (144 ∷ 288 ∷ 1000 ∷ []) (200 ∷ []) 5 7
      ((omega arith, omega arith), tt)
      ((omega arith, omega arith), ((omega arith, omega arith), ((omega arith, omega arith), tt)))
      ((omega arith, omega arith), tt) (omega arith) (omega arith)

stream_rates-encoded_example :
    stream_rates ns (
      interval_stream (100 ∷ [])
      ++ (index_bytes 5
          ++ (interval_stream (144 ∷ 288 ∷ 1000 ∷ [])
              ++ (index_bytes 7 ++ interval_stream (200 ∷ [])))))
    ≡ turn_rates
        ((ns (total (100 ∷ []) + total (144 ∷ 288 ∷ 1000 ∷ []) + 7)
            + 2 ^ 64
            - ns (total (100 ∷ []) + 5))
          % 2 ^ 64)
        3
stream_rates-encoded_example =
    stream_rates-encoded ns (100 ∷ []) (144 ∷ 288 ∷ 1000 ∷ []) (200 ∷ []) 5 7 (omega arith, tt)
      (omega arith, (omega arith, (omega arith, tt))) (omega arith, tt) (omega arith) (omega arith)
