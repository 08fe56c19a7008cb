-- ===== src/Evidence/Kept.antt =====
-- What the evidence store of internal/evidence/store.go promises on services that keep the documented
-- contract of its interfaces: a body that was put is the body that is got.
use opensource_project_intel.Base.{
  ℕ, ◌≡◌, refl, ◌∙◌, ap, ◌⊎◌, inl, inr, Option, some, List, [], ◌∷◌, arith, ◌++◌,
}
use opensource_project_intel.Base.Int.{ℤ, int_eq, int_beq_iff}
use opensource_project_intel.Base.Result.{Result, ok, err}
use opensource_project_intel.Base.Stateful.{Action, after}
use opensource_project_intel.Base.Text.{Text}
use opensource_project_intel.Evidence.{Error, Object, new_object, verify}
use opensource_project_intel.Evidence.Objects.{new_object-verify}
use opensource_project_intel.Evidence.Store.{
  Failure, Services, in_domain, wrap, pass, pass, or_delete, staged_key, committed, promoted,
  put_evidence, read_object, get_evidence,
}

-- The documented contract of BlobStore and Catalog, by what the keys hold and what the catalog has:
-- a call that answers without an error did what it says, the reads change nothing, and the catalog
-- does not touch the blobs.
pub record IsReliable {W : Type 0} (services : Services W) (content : W → Text → Option (List ℕ))
    (catalog : W → ℤ → ℤ → Option Object) : Type 0 where
  pub stages :
      (key : Text) (body : List ℕ) (media : Text) (w w' : W)
      → services.stage key body media w ≡ (ok tt, w')
      → content w' key ≡ some body
  pub suffixes : (id : ℤ) → ¬ (services.staged_suffix id ≡ [])
  pub reads :
      (key : Text) (w w' : W) (body : List ℕ)
      → services.read key w ≡ (ok body, w')
      → content w key ≡ some body
  pub read_keeps :
      (key : Text) (w w' : W) (r : Result Text (List ℕ))
      → services.read key w ≡ (r, w')
      → content w' ≡ content w
  pub promotes :
      (from to : Text) (w w' : W)
      → ¬ (from ≡ to)
      → services.promote from to w ≡ (ok tt, w')
      → content w' to ≡ content w from
  pub commits :
      (object : Object) (w w' : W)
      → services.commit object w ≡ (ok tt, w')
      → catalog w' object.project_id object.id ≡ some object
  pub commit_keeps :
      (object : Object) (w w' : W) (r : Result Text (Unit {0}))
      → services.commit object w ≡ (r, w')
      → content w' ≡ content w
  pub finds :
      (project_id id : ℤ) (w w' : W) (object : Object)
      → services.find project_id id w ≡ (ok object, w')
      → catalog w project_id id ≡ some object
  pub find_keeps :
      (project_id id : ℤ) (w w' : W) (r : Result Text Object)
      → services.find project_id id w ≡ (r, w')
      → content w' ≡ content w

-- A key with something after it is another key.
apart : (key suffix : Text) → ¬ (suffix ≡ []) → ¬ (key ++ suffix ≡ key)
apart [] suffix h e = h e
apart (c ∷ key) suffix h e = apart key suffix h cc

module _ {W : Type 0} (services : Services W) where
  after-in_domain :
      {A B : Type 0} (r : Result Error A) (next : A → Action W Failure B) {w w' : W} {b : B}
      → after next (in_domain r, w) ≡ (ok b, w')
      → (a : A) × (r ≡ ok a) × (next a w ≡ (ok b, w'))
  after-in_domain (ok a) next e = (a, refl, e)
  after-in_domain (err x) next e = cc

  after-wrap :
      {A B : Type 0} (what : Text) (r : Result Text A × W) (next : A → Action W Failure B) {w' : W}
      {b : B}
      → after next (wrap what r) ≡ (ok b, w')
      → (a : A) × (v : W) × (r ≡ (ok a, v)) × (next a v ≡ (ok b, w'))
  after-wrap what (ok a, w) next e = (a, w, refl, e)
  after-wrap what (err x, w) next e = cc

  or_delete-ok :
      {A : Type 0} (key : Text) (r : Result Failure A × W) {a : A} {w' : W}
      → or_delete services key r ≡ (ok a, w')
      → r ≡ (ok a, w')
  or_delete-ok key (ok a, w) e = cc
  or_delete-ok key (err x, w) e = cc

  committed-ok :
      (object : Object) {w w' : W} {o : Object}
      → committed services object w ≡ (ok o, w')
      → (object ≡ o) × (services.commit object w ≡ (ok tt, w'))
  unfolding committed
  committed-ok object {w} e =
      let (_, v, e1, e2) =
        after-wrap _ (services.commit object w) _ (or_delete-ok object.key _ e) in
      (cc, e1 ∙ cc)

  -- The calls of a successful `Put`, each with the world that it left.
  promoted-ok :
      (object : Object) {w w' : W} {o : Object}
      → promoted services object w ≡ (ok o, w')
      → (object ≡ o)
        × ((staged : List ℕ) × (v u : W) × (services.read (staged_key services object) w
              ≡ (ok staged, v))
            × (verify services.sha256 object staged ≡ ok tt)
            × (services.promote (staged_key services object) object.key v ≡ (ok tt, u))
            × (services.commit object u ≡ (ok tt, w')))
  unfolding promoted
  promoted-ok object {w} e =
      let (staged, v, e1, r1) = after-wrap _ (services.read (staged_key services object) w) _ e in
      let (_, e2, r2) = after-in_domain (verify services.sha256 object staged) _ r1 in
      let (_, u, e3, r3) =
        after-wrap _ (services.promote (staged_key services object) object.key v) _ r2 in
      let (same, e4) = committed-ok object r3 in (same, (staged, v, u, e1, e2, e3, e4))

  put_evidence-ok :
      (id project_id : ℤ) (media : Text) (body : List ℕ) {w w' : W} {object : Object}
      → put_evidence services id project_id media body w ≡ (ok object, w')
      → (o : Object) × (new_object services.sha256 services.key_of id project_id media body ≡ ok o)
        × ((v : W) × (services.stage (staged_key services o) body media w ≡ (ok tt, v))
            × (promoted services o v ≡ (ok object, w')))
  unfolding put_evidence
  put_evidence-ok id project_id media body {w} e =
      let (o, e1, r1) =
        after-in_domain (new_object services.sha256 services.key_of id project_id media body) _ e in
      let (_, v, e2, r2) =
        after-wrap _ (services.stage (staged_key services o) body media w) _ r1 in
      (o, e1, (v, e2, or_delete-ok (staged_key services o) _ r2))

  new_object-ids :
      (id project_id : ℤ) (media : Text) (body : List ℕ) {o : Object}
      → new_object services.sha256 services.key_of id project_id media body ≡ ok o
      → (o.id ≡ id) × (o.project_id ≡ project_id)
  unfolding new_object
  new_object-ids id project_id media body e = ground arith

  read_object-ok :
      (project_id : ℤ) (object : Object) (body : List ℕ) (w w' : W)
      → object.project_id ≡ project_id
      → verify services.sha256 object body ≡ ok tt
      → services.read object.key w ≡ (ok body, w')
      → read_object services project_id object w ≡ (ok body, w')
  unfolding read_object
  read_object-ok project_id object body w w' p v r =
      ground (arith, p, v, r, int_beq_iff object.project_id project_id)

  module _ {content : W → Text → Option (List ℕ)} {catalog : W → ℤ → ℤ → Option Object}
      (laws : IsReliable services content catalog) where
    -- A `Put` left the body under the object's key and the object in the catalog.
    put_evidence-leaves :
        (id project_id : ℤ) (media : Text) (body : List ℕ) (w w' : W) {object : Object}
        → put_evidence services id project_id media body w ≡ (ok object, w')
        → (catalog w' project_id id ≡ some object)
          × (content w' object.key ≡ some body)
          × (verify services.sha256 object body ≡ ok tt)
          × (object.project_id ≡ project_id)
    put_evidence-leaves id project_id media body w w' h =
        let (o, made, (v0, staged, r)) = put_evidence-ok id project_id media body h in
        let (same, (bytes, v, u, read, _, promoted', kept)) = promoted-ok o r in
        let (id_same, project_same) = new_object-ids id project_id media body made in
        let key = staged_key services o in
        let held = laws.stages key body media w v0 staged in
        let moved = laws.promotes key o.key v u (apart o.key _ (laws.suffixes o.id)) promoted' in
        let after_read = laws.read_keeps key v0 v (ok bytes) read in
        let after_commit = laws.commit_keeps o u w' (ok tt) kept in
        let listed = laws.commits o u w' kept in
        let verified =
          (new_object-verify services.sha256 services.key_of id project_id media body body
            made).0 in
        (cc, cc, cc, cc)

    -- The object that the catalog finds and the bytes that are read are those of a `Put`.
    get_evidence-reads :
        (project_id id : ℤ) (object : Object) (body : List ℕ) (w : W)
        → catalog w project_id id ≡ some object
        → content w object.key ≡ some body
        → verify services.sha256 object body ≡ ok tt
        → object.project_id ≡ project_id
        → (found : Result Text Object × W) → services.find project_id id w ≡ found
        → (bytes : Result Text (List ℕ) × W) → services.read object.key found.1 ≡ bytes
        → ((get_evidence services project_id id w).0 ≡ ok body)
          ⊎ (e : Text) × ((found.0 ≡ err e) ⊎ (bytes.0 ≡ err e))
    unfolding get_evidence read_object
    get_evidence-reads project_id id object body w c k v p (err e, w1) f b g = inr (e, inl refl)
    get_evidence-reads project_id id object body w c k v p (ok o, w1) f (err e, w2) g =
        inr (e, inr refl)
    get_evidence-reads project_id id object body w c k v p (ok o, w1) f (ok b, w2) g =
        let found = laws.finds project_id id w w1 o f in
        let kept = laws.find_keeps project_id id w w1 (ok o) f in
        let read = laws.reads object.key w1 w2 b g in
        let same_body : b ≡ body = cc in
        let same : o ≡ object = cc in
        let owned : o.project_id ≡ project_id = ap (λ x. x.project_id) same ∙ p in
        let verified : verify services.sha256 o b ≡ ok tt = cc in
        let bytes : services.read o.key w1 ≡ (ok b, w2) = cc in
        let answered : read_object services project_id o w1 ≡ (ok b, w2) =
          read_object-ok project_id o b w1 w2 owned verified bytes in
        inl (
          ap (λ r. (after (read_object services project_id) (pass r)).0) f
          ∙ ap (λ r. r.0) answered
          ∙ ap ok same_body)

    -- After a `Put` that returns no error, `Get` of the object in its project returns the body that was
    -- put, unless the catalog or the blob store answers that call with an error. The services keep
    -- the documented contract of the interfaces.
    pub put_evidence-get :
        (id project_id : ℤ) (media : Text) (body : List ℕ) (w w' : W) {object : Object}
        → put_evidence services id project_id media body w ≡ (ok object, w')
        → ((get_evidence services project_id id w').0 ≡ ok body)
          ⊎ (e : Text) × (((services.find project_id id w').0 ≡ err e)
              ⊎ ((services.read object.key (services.find project_id id w').1).0 ≡ err e))
    put_evidence-get id project_id media body w w' h =
        let (listed, held, verified, owned) = put_evidence-leaves id project_id media body w w' h in
        get_evidence-reads project_id id _ body w' listed held verified owned _ refl _ refl
