-- ===== src/K8s/Stream/Lost.antt =====
-- An agent that is away for a while.
use prospero.Prelude.{
  ◌≡◌, refl, ap, ◌∙◌, true, none, some, List, [], ◌∷◌, String, arith, get, get-remove,
}
use prospero.Model.{Agent}
use prospero.Model.Change.{discovered, gone}
use prospero.Fleet.Manager.{contains}
use prospero.K8s.Diff.View.{View, apply_all, apply_all-append}
use prospero.K8s.Stream.{told, seeded, names, discovery, is_seeded, tail_from, watch_fleet}

contains-names :
    (id : String) (known : List (String × Agent)) (a : Agent)
    → get id known ≡ some a
    → contains id (names known) ≡ true
unfolding get names contains
contains-names id [] a e = absurd (ground (arith, e))
contains-names id ((name, b) ∷ rest) a e = ground (arith, contains-names id rest a)

returned :
    (seen : List String) (id workspace : String) (a : Agent)
    → contains id seen ≡ true
    → tail_from seen (told (gone id workspace) ∷ told (discovered id workspace a) ∷ [])
      ≡ gone id workspace ∷ []
unfolding tail_from discovery is_seeded
returned seen id workspace a e = rw e refl

-- A subscriber whose seed had an agent, and who then hears that it is gone and that one of its name was
-- discovered, is left without it: the discovery is taken for the seed's.
pub rediscovery_lost :
    (known : List (String × Agent)) (v : View) (id workspace : String) (old new : Agent)
    → get id known ≡ some old
    → get id (
        apply_all v
          (watch_fleet known (told (gone id workspace) ∷ told (discovered id workspace new) ∷ [])))
      ≡ none
unfolding watch_fleet
rediscovery_lost known v id workspace old new e =
    rw (returned (names known) id workspace new (contains-names id known old e)) (
      ap (get id) (apply_all-append v (seeded known) (gone id workspace ∷ []))
      ∙ get-remove id (apply_all v (seeded known)))
