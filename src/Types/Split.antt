-- ===== src/Types/Split.antt =====
-- SplitPerDomains and GetBaselinesForDomain of api/types/desired_state.go.
use update_manager.Base.{
  String, Bool, true, ◌≡◌, refl, sym, ◌∙◌, Option, none, some, List, [], ◌∷◌, ◌++◌, arith,
  if◌then◌else◌, null, keep, keep-append, lookup, insert, lookup-insert, ◌==◌, string_eq,
}
use Prim.Native.String.{◌++◌ as cat}
use mathlib.Core.Option
use mathlib.Core.Path.{ap₂}
use text.Mathlib.Text.{starts_with}
use update_manager.Types.Specification.{Baseline, Domain, DesiredState}

-- `strings.HasPrefix(component, domain+":")`
abbrev pub belongs : String → String → Bool
belongs domain component = starts_with component (cat domain ":")

pub components_of : String → List String → List String
components_of domain [] = []
components_of domain (c ∷ cs) =
    let rest = components_of domain cs in if belongs domain c then c ∷ rest else rest

-- The loop of GetBaselinesForDomain. A nil slice and an empty one are one list.
pub get_baselines : String → List Baseline → List Baseline
unfolding components_of
get_baselines domain [] = []
get_baselines domain (b ∷ bs) =
    let cs = components_of domain b.components in
    let rest = get_baselines domain bs in
    if null cs then rest else record b { components = cs } ∷ rest

unfoldable pub get_baselines_for_domain : DesiredState → String → List Baseline
unfolding get_baselines
get_baselines_for_domain s domain = get_baselines domain s.baselines

-- The state that a domain is sent: its baselines, and the slice `Domains[i : i+1]`.
unfoldable pub state_for : DesiredState → Domain → DesiredState
state_for s d = record { baselines = get_baselines_for_domain s d.id; domains = d ∷ [] }

-- The loop of SplitPerDomains, from the map built so far.
split_from :
    DesiredState → List Domain → List (String × DesiredState) → List (String × DesiredState)
split_from s [] split = split
split_from s (d ∷ ds) split = split_from s ds (insert d.id (state_for s d) split)

unfoldable pub split_per_domains : DesiredState → List (String × DesiredState)
unfolding split_from
split_per_domains s = split_from s s.domains []

-- The last domain of the list with a given ID, or what was found before the list.
unfoldable pub last_domain : String → List Domain → Option Domain → Option Domain
last_domain k [] found = found
last_domain k (d ∷ ds) found = last_domain k ds (if d.id == k then some d else found)

abbrev pub component_names : List Baseline → List String
component_names [] = []
component_names (b ∷ bs) = b.components ++ component_names bs

components_of-eq-keep :
    (domain : String) (cs : List String) → components_of domain cs ≡ keep (belongs domain) cs
unfolding components_of
components_of-eq-keep domain [] = refl
components_of-eq-keep domain (c ∷ cs) = ground (arith, components_of-eq-keep domain cs)

null-eq_nil : {A : Type 0} (xs : List A) → null xs ≡ true → xs ≡ []
null-eq_nil [] h = refl
null-eq_nil (x ∷ xs) h = cc

-- Adding the baseline leaves its components, or none if it has none of the domain.
names-add :
    (b : Baseline) (cs : List String) (rest : List Baseline)
    → component_names (if null cs then rest else record b { components = cs } ∷ rest)
      ≡ cs ++ component_names rest
names-add b [] rest = refl
names-add b (c ∷ cs) rest = refl

get_baselines-names :
    (domain : String) (bs : List Baseline)
    → component_names (get_baselines domain bs) ≡ keep (belongs domain) (component_names bs)
unfolding get_baselines
get_baselines-names domain [] = refl
get_baselines-names domain (b ∷ bs) =
    names-add b (components_of domain b.components) (get_baselines domain bs)
    ∙ ap₂ ◌++◌ (components_of-eq-keep domain b.components) (get_baselines-names domain bs)
    ∙ sym (keep-append (belongs domain) b.components (component_names bs))

-- The baselines of a domain name exactly the components of the specification that carry the domain's
-- prefix, in the same order.
get_baselines_for_domain-names :
    (s : DesiredState) (domain : String)
    → component_names (get_baselines_for_domain s domain)
      ≡ keep (belongs domain) (component_names s.baselines)
unfolding get_baselines_for_domain
get_baselines_for_domain-names s domain = get_baselines-names domain s.baselines

split_from-lookup :
    (s : DesiredState) (ds : List Domain) (m : List (String × DesiredState)) (k : String)
    (found : Option Domain)
    → lookup k m ≡ Option.map (state_for s) found
    → lookup k (split_from s ds m) ≡ Option.map (state_for s) (last_domain k ds found)
unfolding split_from last_domain
split_from-lookup s [] m k found h = h
split_from-lookup s (d ∷ ds) m k found h =
    split_from-lookup s ds (insert d.id (state_for s d) m) k (if d.id == k then some d else found)
      (ground (arith, lookup-insert d.id k (state_for s d) m))

-- The split has an entry for an ID exactly if a domain of the specification has that ID; the entry
-- is the state made for the last such domain.
pub split_per_domains-lookup :
    (s : DesiredState) (k : String)
    → lookup k (split_per_domains s) ≡ Option.map (state_for s) (last_domain k s.domains none)
unfolding split_per_domains
split_per_domains-lookup s k = split_from-lookup s s.domains [] k none refl
