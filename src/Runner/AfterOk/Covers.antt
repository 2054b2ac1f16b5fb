-- ===== src/Runner/AfterOk/Covers.antt =====
-- Which dependencies reach SLURM (runner/slurm.go).
use batchq.Shared.{◌≡◌, ◌⊎◌, true, false, List, String, str_eq, contains}
use Prim.Native.String.{◌++◌ as str_append}
use Prim.Native.String
use batchq.Runner.AfterOk.Lists.{In}
use batchq.Runner.AfterOk.{Part, refused, satisfied, plain, task, Collected, name_of}

-- What is known of a job that contributes to the directive.
abbrev pub Placed : Part → Collected → Type 0
Placed refused found = ⊥
Placed satisfied found = Unit
Placed (plain id) (ids, tasks) = contains ids id ≡ true
Placed (task t) (ids, tasks) = In t tasks

abbrev HasText : Part → Type 0
HasText (plain id) = str_eq id "" ≡ false
HasText (task t) = str_eq t.slurm_array "" ≡ false
HasText refused = Unit
HasText satisfied = Unit

-- Where a job that is depended on stands in the directive: under its own SLURM id, or, for a task, under
-- the SLURM array or under its place in it.
abbrev pub Named : List String → Part → Type 0
Named out refused = ⊥
Named out satisfied = Unit
Named out (plain id) = contains out id ≡ true
Named out (task t) =
    (contains out (name_of true t) ≡ true) ⊎ (contains out (name_of false t) ≡ true)
