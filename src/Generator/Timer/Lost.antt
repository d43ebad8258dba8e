-- ===== src/Generator/Timer/Lost.antt =====
-- What is added while a report runs is not reported.
use diversity.Prelude.{
  ℕ, ◌+◌, ◌%◌, ◌^◌, ◌<◌, ◌≡◌, sym, ap, ◌∙◌, List, [], ◌∷◌, ◌++◌, append-nil, append_assoc, arith,
}
use diversity.Generator.Batch.Again.{sum, wrap_add}
use diversity.Generator.Timer.{add_sent, report_stat, reports}

abbrev pub before_reports : List (List ℕ × List ℕ) → List ℕ
before_reports [] = []
before_reports ((before, between) ∷ calls) = sum before % 2 ^ 32 ∷ before_reports calls

add_sent-counter :
    (added : List ℕ) (c : ℕ) (printed : List ℕ)
    → c < 2 ^ 32
    → add_sent added record { counter = c; printed = printed }
      ≡ record { counter = (c + sum added) % 2 ^ 32; printed = printed }
unfolding add_sent
add_sent-counter [] c printed h =
    ap (λ n. record { counter = n; printed = printed }) {x = c} {y = (c + 0) % 2 ^ 32} (omega arith)
add_sent-counter (n ∷ ns) c printed h =
    add_sent-counter ns ((c + n) % 2 ^ 32) printed (omega arith)
    ∙ ap (λ n. record { counter = n; printed = printed }) (wrap_add c n (sum ns))

one_report :
    (before between : List ℕ) (printed : List ℕ)
    → report_stat between (add_sent before record { counter = 0; printed = printed })
      ≡ record { counter = 0; printed = printed ++ sum before % 2 ^ 32 ∷ [] }
unfolding report_stat
one_report before between printed =
    let count = (0 + sum before) % 2 ^ 32 in
    rw
      (
        add_sent-counter before 0 printed (omega arith),
        add_sent-counter between count (printed ++ count ∷ []) (omega arith),
      )
      (ap (λ n. record { counter = 0; printed = printed ++ n ∷ [] }) {x = count}
        {y = sum before % 2 ^ 32} (omega arith))

-- From a counter of 0 on: each report prints what was added since the last one ended, modulo 2 ^ 32, and what another core adds
-- between its reading of the counter and its reset is in no report.
pub reports-printed :
    (calls : List (List ℕ × List ℕ)) (printed : List ℕ)
    → reports calls record { counter = 0; printed = printed }
      ≡ record { counter = 0; printed = printed ++ before_reports calls }
unfolding reports
reports-printed [] printed =
    ap (λ p. record { counter = 0; printed = p }) (sym (append-nil printed))
reports-printed ((before, between) ∷ calls) printed =
    ap (reports calls) (one_report before between printed)
    ∙ reports-printed calls (printed ++ sum before % 2 ^ 32 ∷ [])
    ∙ ap (λ p. record { counter = 0; printed = p })
        (append_assoc printed (sum before % 2 ^ 32 ∷ []) (before_reports calls))
