-- ===== src/Lifecycle/Balanced.antt =====
-- A reroll of matchmaking/matchmaking.service.ts is a step of the life cycle of the matches.
use inhouse_maker_core_serve.Common.{ℕ, refl, sym, ap, inl, inr, List, map}
use mathlib.Core.Path.{subst}
use inhouse_maker_core_serve.Model.World.{World}
use inhouse_maker_core_serve.Matchmaking.Metrics.{Doubles}
use inhouse_maker_core_serve.Matchmaking.Candidates.{KeyTexts}
use inhouse_maker_core_serve.Matchmaking.Service.{PowerEntry, Reroll, stored_candidate}
use inhouse_maker_core_serve.Matchmaking.Handlers.{reroll}
use inhouse_maker_core_serve.Matchmaking.Rerolled.{reroll-IsRerolled}
use inhouse_maker_core_serve.Lifecycle.MatchKeeps.{AllConsistent}
use inhouse_maker_core_serve.Lifecycle.Reach.{
  Step, balanced, elsewhere, Reachable, next, Reachable-AllConsistent,
}

module _ (d : Doubles) (texts : KeyTexts) (powers : List (PowerEntry d)) where
  reroll-Step : (user k : ℕ) (r : Reroll) (w : World) → Step w (reroll d texts powers user k r w).1
  reroll-Step user k r w = elim (reroll-IsRerolled d texts powers user k r w) [
    | inl (s, c, refused) ↦ subst (Step w) (sym (ap (λ x. x.1) refused)) (elsewhere w w refl)
    | inr (m, cs, first, ps, done) ↦
        subst (Step w) (sym (ap (λ x. x.1) done.answered))
          (balanced k first.mode (map (stored_candidate d) cs) m w done.found)
  ]

  -- Whatever a reroll answers, the world after it is reachable, and its matches are consistent.
  reroll-AllConsistent :
      (user k : ℕ) (r : Reroll) (w : World)
      → Reachable w
      → AllConsistent (reroll d texts powers user k r w).1
  reroll-AllConsistent user k r w h =
      Reachable-AllConsistent _ (next w _ h (reroll-Step user k r w))
