-- ===== src/Snowflake/Fields.antt =====
-- The fields of an identifier, and what sets the identifiers of two nodes apart
-- (internal/platform/id/snowflake.go).
use opensource_project_intel.Base.{
  ℕ, zero, suc, ◌+◌, ◌/◌, ◌%◌, ◌^◌, ◌≡◌, refl, ◌∙◌, ◌≢◌, List, [], ◌∷◌, arith,
}
use opensource_project_intel.Base.Int.{pos, pos_part, ◌-ℤ◌, -ℤ_parts, parts_apart}
use opensource_project_intel.Base.Lists.{All}
use opensource_project_intel.Base.Result.{Result, ok, err}
use opensource_project_intel.Snowflake.{Error, Env, Generator, epoch_milli, next}
use opensource_project_intel.Snowflake.Stages.{Holds, Before}
use opensource_project_intel.Snowflake.Next.{IsValid, Reached, Issued, Done, next-Holds}
use opensource_project_intel.Snowflake.Order.{issue, collect}

abbrev pub node_field : ℕ → ℕ
node_field id = id / 2 ^ 12 % 2 ^ 10

abbrev pub HasFields : ℕ → Generator → Type 0
HasFields id g =
    (epoch_milli + id / 2 ^ 22 ≡ pos_part g.last_millisecond)
    × (node_field id ≡ g.lease.node)
    × (id % 2 ^ 12 ≡ g.sequence)

Issued-HasFields : (id : ℕ) (g : Generator) → IsValid g → Issued id g → HasFields id g
Issued-HasFields id g v h = omega (
  arith,
  -ℤ_parts g.last_millisecond (pos epoch_milli),
  parts_apart (g.last_millisecond -ℤ pos epoch_milli),
  parts_apart g.last_millisecond,
)

module _ {W : Type 0} (env : Env W) where
  -- An identifier that `Next` returns holds the millisecond since the epoch, the node and the sequence of
  -- the generator's new position, which comes after the old one; the node is unchanged.
  pub next-HasFields :
      (g g' : Generator) (w w' : W) {id : ℕ}
      → IsValid g
      → next env g w ≡ (ok id, g', w')
      → HasFields id g' × (g'.lease.node ≡ g.lease.node) × Before g g'
  next-HasFields g g' w w' {id} v h =
      let done : Holds (Done env g v) (Reached g) (ok id, g', w') =
        rw h at (next-Holds {W = W} env g v w) in
      (Issued-HasFields id g' done.2 done.1, done.3, done.0)

  issue-node :
      (calls n : ℕ) (g : Generator) (w : W)
      → IsValid g
      → g.lease.node ≡ n
      → All (λ id. node_field id ≡ n) (issue env calls g w)
  unfolding issue
  issue-node zero n g w v e = tt
  issue-node (suc calls) n g w v e = go (issue-node calls n) (next env g w) (next-Holds env g v w)
    where
      go :
          ((g' : Generator) (w' : W)
            → IsValid g'
            → g'.lease.node ≡ n
            → All (λ id. node_field id ≡ n) (issue env calls g' w'))
          → (t : Result Error ℕ × Generator × W) → Holds (Done env g v) (Reached g) t
          → All (λ id. node_field id ≡ n) (collect t.0 (issue env calls t.1 t.2))
      go ih (ok id, g', w') h =
          ((Issued-HasFields id g' h.2 h.1).1 ∙ h.3 ∙ e, ih g' w' h.2 (h.3 ∙ e))
      go ih (err e', g', w') h = ih g' w' h.0 (h.1 ∙ e)

apart :
    (n m : ℕ) (ids ids' : List ℕ)
    → n ≢ m
    → All (λ id. node_field id ≡ n) ids
    → All (λ id. node_field id ≡ m) ids'
    → All (λ id. All (λ id'. id ≢ id') ids') ids
apart n m [] ids' d h h' = tt
apart n m (id ∷ ids) ids' d h h' = (one ids' h', apart n m ids ids' d h.1 h')
  where
    one : (ids' : List ℕ) → All (λ id. node_field id ≡ m) ids' → All (λ id'. id ≢ id') ids'
    one [] k = tt
    one (id' ∷ ids') k = (λ e. ground arith, one ids' k.1)

-- Two generators on different nodes, each in its own environment, never issue the same identifier.
pub issue_apart :
    {V W : Type 0} (env : Env V) (env' : Env W) (g g' : Generator) (calls calls' : ℕ) (v : V)
    (w : W)
    → IsValid g
    → IsValid g'
    → g.lease.node ≢ g'.lease.node
    → All (λ id. All (λ id'. id ≢ id') (issue env' calls' g' w)) (issue env calls g v)
issue_apart env env' g g' calls calls' v w i i' d =
    apart g.lease.node g'.lease.node (issue env calls g v) (issue env' calls' g' w) d
      (issue-node env calls g.lease.node g v i refl)
      (issue-node env' calls' g'.lease.node g' w i' refl)
