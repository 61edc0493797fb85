-- ===== src/Workspace/Tabs.antt =====
-- The tabs stay well formed (workspaceStore.ts).
use encore_hub.Shared.{
  ℕ, zero, suc, Bool-cases, true, false, not, ◌||◌, ◌≡◌, ◌∙◌, refl, inl, inr, Option, none, some,
  List, [], ◌∷◌, ◌++◌, any-append, keep, find_index, get_elem?, or_else, if◌then◌else◌, arith,
}
use encore_hub.Workspace.{
  WorkspaceTabId, home, workbench, settings, multi_chat, same_tab, WorkspaceState,
  initial_workspace, includes, open_tab, activate_tab, fallback_index, close_tab, TabEvent, opened,
  activated, closed, tab_step, tab_run,
}

abbrev pub HasDistinctTabs : List WorkspaceTabId → Type 0
HasDistinctTabs [] = Unit
HasDistinctTabs (t ∷ ts) = (includes t ts ≡ false) × HasDistinctTabs ts

pub record IsWindow (s : WorkspaceState) : Type 0 where
  pub has_home : includes home s.open_tabs ≡ true
  pub active_open : includes s.active_tab s.open_tabs ≡ true
  pub distinct : HasDistinctTabs s.open_tabs

same_tab_refl : (t : WorkspaceTabId) → same_tab t t ≡ true
same_tab_refl home = refl
same_tab_refl workbench = refl
same_tab_refl settings = refl
same_tab_refl multi_chat = refl

same_tab_iff : (t u : WorkspaceTabId) → same_tab t u ≡ true → t ≡ u
same_tab_iff home u h = ground arith
same_tab_iff workbench u h = ground arith
same_tab_iff settings u h = ground arith
same_tab_iff multi_chat u h = ground arith

distinct-concat :
    (ts : List WorkspaceTabId) (t : WorkspaceTabId)
    → HasDistinctTabs ts
    → includes t ts ≡ false
    → HasDistinctTabs (ts ++ t ∷ [])
distinct-concat [] t d h = (refl, tt)
distinct-concat (u ∷ ts) t (fresh, d) h = (
  any-append (λ x. same_tab x u) ts (t ∷ []) ∙ ground (arith, same_tab_iff t u, same_tab_refl u),
  distinct-concat ts t d (ground arith),
)

includes-keep :
    (ts : List WorkspaceTabId) (t u : WorkspaceTabId)
    → includes u (keep (λ x. not (same_tab x t)) ts)
      ≡ (if same_tab t u then false else includes u ts)
includes-keep [] t u = ground arith
includes-keep (x ∷ ts) t u = ground (
  arith,
  includes-keep ts t u,
  same_tab_iff x t,
  same_tab_iff x u,
  same_tab_iff t u,
  same_tab_refl u,
)

distinct-keep :
    (ts : List WorkspaceTabId) (t : WorkspaceTabId)
    → HasDistinctTabs ts
    → HasDistinctTabs (keep (λ x. not (same_tab x t)) ts)
distinct-keep [] t d = tt
distinct-keep (x ∷ ts) t (fresh, d) = ground (arith, distinct-keep ts t d, includes-keep ts t x)

-- What stands at an index is in the list; home stands in for a missing one.
includes-get_elem? :
    (ts : List WorkspaceTabId) (i : ℕ) (t : WorkspaceTabId)
    → get_elem? ts i ≡ some t
    → includes t ts ≡ true
includes-get_elem? [] i t e = cc
includes-get_elem? (x ∷ ts) zero t e = ground (arith, same_tab_refl x)
includes-get_elem? (x ∷ ts) (suc i) t e = ground (arith, includes-get_elem? ts i t e)

includes-or_home :
    (ts : List WorkspaceTabId) (o : Option WorkspaceTabId) (i : ℕ)
    → get_elem? ts i ≡ o
    → includes home ts ≡ true
    → includes (or_else o home) ts ≡ true
includes-or_home ts none i e h = h
includes-or_home ts (some t) i e h = includes-get_elem? ts i t e

initial-IsWindow : IsWindow initial_workspace
initial-IsWindow = record { has_home = refl; active_open = refl; distinct = (refl, tt) }

open_tab-IsWindow :
    (s : WorkspaceState) (tab : WorkspaceTabId) → IsWindow s → IsWindow (open_tab s tab)
unfolding open_tab
open_tab-IsWindow s tab w = elim (Bool-cases (includes tab s.open_tabs)) [
  | inl y ↦ rw y (record { has_home = w.has_home; active_open = y; distinct = w.distinct })
  | inr n ↦ rw n (record {
    has_home =
        any-append (λ t. same_tab t home) s.open_tabs (tab ∷ []) ∙ ground (arith, w.has_home);
    active_open =
        any-append (λ t. same_tab t tab) s.open_tabs (tab ∷ []) ∙ ground (arith, same_tab_refl tab);
    distinct = distinct-concat s.open_tabs tab w.distinct n;
  })
]

activate_tab-IsWindow :
    (s : WorkspaceState) (tab : WorkspaceTabId) → IsWindow s → IsWindow (activate_tab s tab)
unfolding activate_tab
activate_tab-IsWindow s tab w = elim (Bool-cases (includes tab s.open_tabs)) [
  | inl y ↦ rw y (record { has_home = w.has_home; active_open = y; distinct = w.distinct })
  | inr n ↦ rw n w
]

-- What closing leaves still has the home tab.
home_stays :
    (s : WorkspaceState) (tab : WorkspaceTabId)
    → same_tab tab home ≡ false
    → IsWindow s
    → includes home (keep (λ t. not (same_tab t tab)) s.open_tabs) ≡ true
home_stays s tab h w = includes-keep s.open_tabs tab home ∙ ground (arith, w.has_home)

close_tab-IsWindow :
    (s : WorkspaceState) (tab : WorkspaceTabId) → IsWindow s → IsWindow (close_tab s tab)
unfolding close_tab
close_tab-IsWindow s tab w =
    elim (Bool-cases (same_tab tab home || not (includes tab s.open_tabs))) [
      | inl y ↦ rw y w
      | inr n ↦
          let kept = home_stays s tab (ground arith) w in
          elim (Bool-cases (same_tab s.active_tab tab)) [
            | inl a ↦
                rw (n, a)
                  (record {
                    has_home = kept;
                    active_open =
                        includes-or_home (keep (λ t. not (same_tab t tab)) s.open_tabs) _
                          (fallback_index
                            (or_else (find_index (λ t. same_tab t tab) s.open_tabs) zero)
                            (keep (λ t. not (same_tab t tab)) s.open_tabs))
                          refl kept;
                    distinct = distinct-keep s.open_tabs tab w.distinct;
                  })
            | inr b ↦
                rw (n, b)
                  (record {
                    has_home = kept;
                    active_open =
                        includes-keep s.open_tabs tab s.active_tab
                        ∙ ground (
                          arith,
                          w.active_open,
                          same_tab_iff tab s.active_tab,
                          same_tab_refl tab,
                        );
                    distinct = distinct-keep s.open_tabs tab w.distinct;
                  })
          ]
    ]

tab_step-IsWindow : (s : WorkspaceState) (e : TabEvent) → IsWindow s → IsWindow (tab_step s e)
unfolding tab_step
tab_step-IsWindow s (opened tab) w = open_tab-IsWindow s tab w
tab_step-IsWindow s (activated tab) w = activate_tab-IsWindow s tab w
tab_step-IsWindow s (closed tab) w = close_tab-IsWindow s tab w

tab_run_from-IsWindow :
    (s : WorkspaceState) (es : List TabEvent) → IsWindow s → IsWindow (tab_run s es)
unfolding tab_run
tab_run_from-IsWindow s [] w = w
tab_run_from-IsWindow s (e ∷ es) w =
    tab_run_from-IsWindow (tab_step s e) es (tab_step-IsWindow s e w)

-- After any openings, activations and closings the home tab is open, the active tab is open, and
-- no tab is open twice.
pub tab_run-IsWindow : (es : List TabEvent) → IsWindow (tab_run initial_workspace es)
tab_run-IsWindow es = tab_run_from-IsWindow initial_workspace es initial-IsWindow
