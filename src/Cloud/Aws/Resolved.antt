-- ===== src/Cloud/Aws/Resolved.antt =====
-- The instance that a command works on is a live one.
use browser_visit_logger.Base.{
  Text, true, false, Option, none, some, List, [], ◌∷◌, ◌≡◌, contains, text_eq, arith, is_empty,
  nat_eq, Bool, ◌==◌, ◌&&◌, ◌||◌, All, if◌then◌else◌, refl,
}
use browser_visit_logger.Cloud.Calls.{
  Aws, Call, Site, Instance, Reply, answered, refused, pure, Filter, by_tag, by_state,
  describe_instances,
}
use browser_visit_logger.Cloud.Calls.Rules.{Returned}
use browser_visit_logger.Cloud.Aws.{role, live_states, managed, ids, only_instance, choose_instance}

abbrev has_tag : Text → List Text → List (Text × Text) → Bool
has_tag key values [] = false
has_tag key values ((k, v) ∷ tags) = (k == key && contains values v) || has_tag key values tags

-- What AWS documents of a filter: an instance passes that has a tag with the key and one of the
-- values, or that is in one of the states.
abbrev pub passes : Instance → Filter → Bool
passes i (by_tag key values) = has_tag key values i.tags
passes i (by_state values) = contains values i.state_name

abbrev pub passes_all : Instance → List Filter → Bool
passes_all i [] = true
passes_all i (f ∷ filters) = passes i f && passes_all i filters

abbrev pub Filtered : List Filter → Reply (List Instance) → Type 0
Filtered filters (answered found) = All (λ i. passes_all i filters ≡ true) found
Filtered filters (refused code) = Unit

-- `describe_instances` answers instances that pass all its filters.
abbrev pub IsFiltering : Aws → Type 0
IsFiltering aws =
    (filters : List Filter) (calls : List Call)
    → Filtered filters (aws.instances (describe_instances filters ∷ calls))

-- An instance with the role tag, in a live state.
abbrev pub IsManaged : Instance → Type 0
IsManaged i =
    (has_tag role.0 (role.1 ∷ []) i.tags ≡ true) × (contains live_states i.state_name ≡ true)

-- The answer holds the instance.
abbrev pub IsLive : Text → Reply (List Instance) → Type 0
IsLive id (answered found) = contains (ids found) id ≡ true
IsLive id (refused code) = ⊥

only_instance-live :
    (found : List Instance) (s : Site)
    → Returned (λ id t. contains (ids found) id ≡ true) (only_instance found s)
unfolding text_eq nat_eq
only_instance-live [] s = tt
only_instance-live (i ∷ []) s = ground arith
only_instance-live (i ∷ j ∷ found) s = tt

pub choose_instance-live :
    (want : Option Text) (found : List Instance) (s : Site)
    → Returned (λ id t. contains (ids found) id ≡ true) (choose_instance want found s)
unfolding choose_instance
choose_instance-live none found s = only_instance-live found s
choose_instance-live (some want) found s = chosen (is_empty want) (contains (ids found) want) refl
  where
    chosen :
        (b c : Bool)
        → contains (ids found) want ≡ c
        → Returned
            (λ id t. contains (ids found) id ≡ true)
            ((if b then only_instance found else if c then pure want else only_instance found) s)
    chosen true c e = only_instance-live found s
    chosen false true e = e
    chosen false false e = only_instance-live found s

only_instance-site : (found : List Instance) (s : Site) → (only_instance found s).1 ≡ s
only_instance-site [] s = refl
only_instance-site (i ∷ []) s = refl
only_instance-site (i ∷ j ∷ found) s = refl

-- The choice makes no call.
pub choose_instance-site :
    (want : Option Text) (found : List Instance) (s : Site) → (choose_instance want found s).1 ≡ s
unfolding choose_instance
choose_instance-site none found s = only_instance-site found s
choose_instance-site (some want) found s = chosen (is_empty want) (contains (ids found) want)
  where
    chosen :
        (b c : Bool)
        → ((if b then only_instance found else if c then pure want else only_instance found) s).1
          ≡ s
    chosen true c = only_instance-site found s
    chosen false true = refl
    chosen false false = only_instance-site found s

-- The instance with that id among those of an answer is a managed one.
pub managed_of :
    (id : Text) (found : List Instance)
    → Filtered managed (answered found)
    → contains (ids found) id ≡ true
    → (i : Instance) × (i.instance_id ≡ id) × IsManaged i
managed_of id [] h c = ground arith
managed_of id (i ∷ found) (here, h) c = elim (text_eq.dec i.instance_id id) [
  | yes same ↦ (i, same, ground arith)
  | no other ↦ managed_of id found h (ground arith)
]
