-- ===== src/DebugModule/Status.antt =====
-- riscv/debug_module.cc: what dmstatus says of the selected harts.
use nnemu.Base.{
  Bool, Bool-cases, List, [], ap, arith, false, if◌then◌else◌, inl, inr, not, true, ℕ, ◌&&◌, ◌||◌,
  ◌∙◌, ◌∷◌, ◌≡◌,
}
use nnemu.DebugModule.{Dm, Sim, hart_at, hart_selected}
use nnemu.DebugModule.Dmi.Read.{Summary, add_hart, no_summary, summarise}

-- Every hart that is selected, and some hart that is, in a list of IDs.
abbrev pub all_selected : (ℕ → Bool) → (ℕ → Bool) → List ℕ → Bool
all_selected selected f [] = true
all_selected selected f (id ∷ ids) = (not (selected id) || f id) && all_selected selected f ids

abbrev pub any_selected : (ℕ → Bool) → (ℕ → Bool) → List ℕ → Bool
any_selected selected f [] = false
any_selected selected f (id ∷ ids) = (selected id && f id) || any_selected selected f ids

same_summary :
    (a b : Summary)
    → a.allhalted ≡ b.allhalted
    → a.anyhalted ≡ b.anyhalted
    → a.allrunning ≡ b.allrunning
    → a.anyrunning ≡ b.anyrunning
    → a.allnonexistant ≡ b.allnonexistant
    → a.allresumeack ≡ b.allresumeack
    → a.anyresumeack ≡ b.anyresumeack
    → a ≡ b
same_summary a b p1 p2 p3 p4 p5 p6 p7 = λ i. record {
  allhalted = p1 i;
  anyhalted = p2 i;
  allrunning = p3 i;
  anyrunning = p4 i;
  allnonexistant = p5 i;
  allresumeack = p6 i;
  anyresumeack = p7 i;
}

module _ {S : Type 0} (sim : Sim S) (d : Dm) where
  abbrev pub halted : ℕ → Bool
  halted id = (hart_at d id).halted

  abbrev pub resumed : ℕ → Bool
  resumed id = (hart_at d id).resumeack

  -- The summary of the harts after those that `r` sums up.
  abbrev pub after : List ℕ → Summary → Summary
  after ids r =
      let selected = hart_selected sim d in
      record {
        allhalted = r.allhalted && all_selected selected halted ids;
        anyhalted = r.anyhalted || any_selected selected halted ids;
        allrunning = r.allrunning && all_selected selected (λ id. not (halted id)) ids;
        anyrunning = r.anyrunning || any_selected selected (λ id. not (halted id)) ids;
        allnonexistant = r.allnonexistant && not (any_selected selected (λ id. true) ids);
        allresumeack = r.allresumeack && all_selected selected resumed ids;
        anyresumeack = r.anyresumeack || any_selected selected resumed ids;
      }

  summarise-after : (ids : List ℕ) (r : Summary) → summarise sim d ids r ≡ after ids r
  unfolding summarise
  summarise-after [] r =
      same_summary r (after [] r) (ground arith) (ground arith) (ground arith) (ground arith)
        (ground arith) (ground arith) (ground arith)
  summarise-after (id ∷ ids) r = elim (Bool-cases (hart_selected sim d id)) [
    | inl e ↦
        ap
          (λ (b : Bool).
            if b then summarise sim d ids (add_hart (hart_at d id) r) else summarise sim d ids r)
          e
        ∙ summarise-after ids (add_hart (hart_at d id) r)
        ∙ same_summary (after ids (add_hart (hart_at d id) r)) (after (id ∷ ids) r)
            (ground (arith, e)) (ground (arith, e)) (ground (arith, e)) (ground (arith, e))
            (ground (arith, e)) (ground (arith, e)) (ground (arith, e))
    | inr e ↦
        ap
          (λ (b : Bool).
            if b then summarise sim d ids (add_hart (hart_at d id) r) else summarise sim d ids r)
          e
        ∙ summarise-after ids r
        ∙ same_summary (after ids r) (after (id ∷ ids) r) (ground (arith, e)) (ground (arith, e))
            (ground (arith, e)) (ground (arith, e)) (ground (arith, e)) (ground (arith, e))
            (ground (arith, e))
  ]

  -- The flags of dmstatus are those of the selected harts: all of them or some are halted, run or have
  -- resumed, or there is none.
  pub summarise_lem : summarise sim d sim.harts no_summary ≡ after sim.harts no_summary
  summarise_lem = summarise-after sim.harts no_summary
