-- ===== src/Desktop/Producer/Laws.antt =====
-- Which runs `require_producer` accepts, said without its code.
use sesori_apps_monorepo.Prelude.Read.{Read}
use sesori_apps_monorepo.Prelude.{
  ℕ, ltb, ◌<◌, ◌≡◌, ◌≢◌, ◌↔◌, ◌⊎◌, inl, inr, refl, sym, ap, ◌∙◌, true, ◌&&◌, ◌||◌, not, String,
  ◌<>◌, Option, some, List, [], ◌∷◌, ==→≡, ≡→==, string_eq, nat_eq, option_eq, arith,
}
use sesori_apps_monorepo.Prelude.Lists.{In}
use sesori_apps_monorepo.Prelude.Reflect.{Says, and_says, or_says, not_says}
use sesori_apps_monorepo.Prelude.Exec.{ok}
use sesori_apps_monorepo.Prelude.Exec.Inversion.{ok-injective}
use sesori_apps_monorepo.Prelude.Read.Inversion.{
  require-inv, require-intro, lift-inv, lift-intro, bind-inv, bind-intro, require_iff, pure-intro,
}
use sesori_apps_monorepo.Json.{Json, null, boolean, number, string, array, object, Fields, get}
use sesori_apps_monorepo.Json.Equality.Laws.{json_eq_string_iff}
use sesori_apps_monorepo.Host.{Host, read_json}
use sesori_apps_monorepo.Desktop.Producer.{
  is_sha, is_sha_value, is_text, is_one_of, is_number, is_none, get_fields, own_finalizer,
  qualification_workflow, release_workflow, producer_workflows, repository_name, check_run,
  require_producer,
}

-- The run succeeded, or it is the caller's own run of the same tooling, still going, and not a
-- qualification.
abbrev pub Finished : Fields → String → ℕ → Option ℕ → Type 0
Finished run tooling_sha run_id current_run_id =
    (get run "conclusion" ≡ string "success")
    ⊎ ((current_run_id ≡ some run_id)
        × ((get run "head_sha" ≡ string tooling_sha)
            × ((get run "path" ≢ string qualification_workflow)
                × ((get run "status" ≢ string "completed") × (get run "conclusion" ≡ null)))))

-- A main-only, manually dispatched run of a producer workflow of the repository, at an immutable
-- commit, which is the source where the workflow releases it.
pub record IsProducer (run : Fields) (source_sha tooling_sha repository : String) (run_id : ℕ)
    (current_run_id : Option ℕ) : Type 0 where
  pub identified : (is_number (get run "id") run_id ≡ true) × (0 < run_id)
  pub owned :
      (owner : Fields) × (get_fields run "repository" ≡ ok owner)
      × (get owner "full_name" ≡ string repository)
  pub producer : (path : String) × In path producer_workflows × (get run "path" ≡ string path)
  pub dispatched :
      (get run "event" ≡ string "workflow_dispatch") × (get run "head_branch" ≡ string "main")
  pub immutable : is_sha_value (get run "head_sha") ≡ true
  pub finished : Finished run tooling_sha run_id current_run_id
  pub bound : get run "path" ≡ string release_workflow → get run "head_sha" ≡ string source_sha

is_text_says : (value : Json) (text : String) → Says (is_text value text) (value ≡ string text)
unfolding is_text
is_text_says value text = json_eq_string_iff value text

is_none_says : (value : Json) → Says (is_none value) (value ≡ null)
unfolding is_none
is_none_says null = (λ _. refl, λ _. refl)
is_none_says (boolean b) = (λ h. cc, λ h. cc)
is_none_says (number s n f) = (λ h. cc, λ h. cc)
is_none_says (string s) = (λ h. cc, λ h. cc)
is_none_says (array xs) = (λ h. cc, λ h. cc)
is_none_says (object d) = (λ h. cc, λ h. cc)

is_one_of_says :
    (value : Json) (texts : List String)
    → Says (is_one_of value texts) ((t : String) × In t texts × (value ≡ string t))
unfolding is_one_of
is_one_of_says value [] = (λ h. cc, λ h. absurd h.1)
is_one_of_says value (t ∷ ts) =
    let (f, f') =
      or_says (is_text value t) (is_one_of value ts) (is_text_says value t)
        (is_one_of_says value ts) in
    (
      λ h. elim (f h) [ inl e ↦ (t, inl refl, e) | inr (u, m, e) ↦ (u, inr m, e) ],
      λ (u, m, e). f' (elim m [ inl same ↦ inl (e ∙ ap string same) | inr k ↦ inr (u, k, e) ]),
    )

Finished-says :
    (run : Fields) (tooling_sha : String) (run_id : ℕ) (current_run_id : Option ℕ)
    → Says
        (is_text (get run "conclusion") "success"
          || own_finalizer run tooling_sha run_id current_run_id)
        (Finished run tooling_sha run_id current_run_id)
unfolding own_finalizer
Finished-says run tooling_sha run_id current_run_id = or_says _ _ (is_text_says _ _) (
    and_says _ _
      (
        λ h. sym (==→≡ (some run_id) current_run_id h),
        λ h. ≡→== (some run_id) current_run_id (sym h),
      )
      (and_says _ _ (is_text_says _ _) (
        and_says _ _ (not_says _ (is_text_says _ _))
          (and_says _ _ (not_says _ (is_text_says _ _)) (is_none_says _)))))

bound_says :
    (run : Fields) (source_sha : String)
    → Says
        (not (is_text (get run "path") release_workflow) || is_text (get run "head_sha") source_sha)
        (get run "path" ≡ string release_workflow → get run "head_sha" ≡ string source_sha)
bound_says run source_sha =
    let (p, p') = is_text_says (get run "path") release_workflow in
    let (q, q') = is_text_says (get run "head_sha") source_sha in
    (λ h e. ground (arith, p', q, q'), λ h. ground (arith, p, q'))

run_says :
    (run : Fields) (run_id : ℕ)
    → Says
        (is_number (get run "id") run_id && ltb 0 run_id)
        ((is_number (get run "id") run_id ≡ true) × (0 < run_id))
run_says run run_id = and_says _ _ (λ h. h, λ h. h) (λ h. ground arith, λ h. ground arith)

module _ {World : Type 0} (run : Fields) (source_sha tooling_sha repository : String) (run_id : ℕ)
    (current_run_id : Option ℕ) (w : World) where
  -- The checks of a run pass exactly if the run is a producer.
  check_run_iff :
      (check_run run source_sha tooling_sha repository run_id current_run_id w ≡ ok tt)
      ↔ IsProducer run source_sha tooling_sha repository run_id current_run_id
  unfolding check_run
  check_run_iff = (accepted, accept)
    where
      accepted :
          (check_run run source_sha tooling_sha repository run_id current_run_id w) ≡ ok tt
          → IsProducer run source_sha tooling_sha repository run_id current_run_id
      accepted h =
          let (c, h) = require-inv _ _ _ w tt h in
          let (owner, is, h) = lift-inv _ _ w tt h in
          let (c2, h) = require-inv _ _ _ w tt h in
          let (c3, h) = require-inv _ _ _ w tt h in
          let (c4, h) = require-inv _ _ _ w tt h in
          let (c5, h) = require-inv _ _ _ w tt h in
          let (c6, h) = require-inv _ _ _ w tt h in
          let c7 = (require_iff _ _ w).0 h in
          record {
            identified = (run_says run run_id).0 c;
            owned = (owner, is, (is_text_says _ _).0 c2);
            producer = (is_one_of_says _ _).0 c3;
            dispatched = (and_says _ _ (is_text_says _ _) (is_text_says _ _)).0 c4;
            immutable = c5;
            finished = (Finished-says run tooling_sha run_id current_run_id).0 c6;
            bound = (bound_says run source_sha).0 c7;
          }

      accept :
          IsProducer run source_sha tooling_sha repository run_id current_run_id
          → (check_run run source_sha tooling_sha repository run_id current_run_id w) ≡ ok tt
      accept p =
          let (owner, is, named) = p.owned in
          require-intro _ _ _ w ((run_says run run_id).1 p.identified)
          ∙ lift-intro _ _ w owner is
          ∙ require-intro _ _ _ w ((is_text_says _ _).1 named)
          ∙ require-intro _ _ _ w ((is_one_of_says _ _).1 p.producer)
          ∙ require-intro _ _ _ w
              ((and_says _ _ (is_text_says _ _) (is_text_says _ _)).1 p.dispatched)
          ∙ require-intro _ _ _ w p.immutable
          ∙ require-intro _ _ _ w
              ((Finished-says run tooling_sha run_id current_run_id).1 p.finished)
          ∙ (require_iff _ _ w).1 ((bound_says run source_sha).1 p.bound)

-- Given the record of the run as it was read, `require_producer` returns it exactly if both commits
-- are full hashes, the repository is that of the project, and the run is one of its producers: a
-- manually dispatched run on main of a producer workflow, at an immutable commit, that succeeded or
-- is the caller's own run of the same tooling, and is at the source where the workflow releases it.
pub require_producer_iff :
    (H : Host) (root source_sha tooling_sha repository : String) (run_id : ℕ)
    (current_run_id : Option ℕ) (w : H.World) (run : Fields)
    → read_json H (root <> "/run.json") w ≡ ok run
    → (require_producer H root source_sha tooling_sha repository run_id current_run_id w ≡ ok run)
      ↔ ((is_sha source_sha ≡ true)
          × ((is_sha tooling_sha ≡ true)
              × ((repository ≡ repository_name)
                  × IsProducer run source_sha tooling_sha repository run_id current_run_id)))
unfolding require_producer
require_producer_iff H root source_sha tooling_sha repository run_id current_run_id w run is =
    (accepted, accept)
  where
    check : Fields → Read H.World (Unit {0})
    check r = check_run r source_sha tooling_sha repository run_id current_run_id

    accepted :
        require_producer H root source_sha tooling_sha repository run_id current_run_id w ≡ ok run
        → (is_sha source_sha ≡ true)
          × ((is_sha tooling_sha ≡ true)
              × ((repository ≡ repository_name)
                  × IsProducer run source_sha tooling_sha repository run_id current_run_id))
    accepted h =
        let (c, h) = require-inv _ _ _ w run h in
        let (c2, h) = require-inv _ _ _ w run h in
        let (c3, h) = require-inv _ _ _ w run h in
        let (r, found, h) = bind-inv (read_json H (root <> "/run.json")) _ w run h in
        let same : r ≡ run = ok-injective (sym found ∙ is) in
        let (t, passed, h) = bind-inv (check r) _ w run h in
        let p = (check_run_iff run source_sha tooling_sha repository run_id current_run_id w).0 in
        (c, (c2, (==→≡ repository repository_name c3, p (ap (λ x. check x w) (sym same) ∙ passed))))

    accept :
        (is_sha source_sha ≡ true)
          × ((is_sha tooling_sha ≡ true)
              × ((repository ≡ repository_name)
                  × IsProducer run source_sha tooling_sha repository run_id current_run_id))
        → require_producer H root source_sha tooling_sha repository run_id current_run_id w ≡ ok run
    accept (c, (c2, (c3, p))) =
        require-intro _ _ _ w c
        ∙ require-intro _ _ _ w c2
        ∙ require-intro _ _ _ w (≡→== repository repository_name c3)
        ∙ bind-intro (read_json H (root <> "/run.json")) _ w run is
        ∙ bind-intro (check run) _ w tt
            ((check_run_iff run source_sha tooling_sha repository run_id current_run_id w).1 p)
        ∙ pure-intro run w
