-- ===== src/Evidence/Examples.antt =====
-- The theorems about evidence at concrete inputs.
use opensource_project_intel.Base.{
  ℕ, ◌≡◌, refl, sym, ◌∙◌, ap, ◌&&◌, List, [], ◌∷◌, Option, none, some, if◌then◌else◌, ◌==◌, arith,
  ◌⊎◌,
}
use opensource_project_intel.Base.Int.{ℤ, pos, int_eq, int_beq_iff}
use opensource_project_intel.Base.Result.{Result, ok, err}
use opensource_project_intel.Base.Text.{Text, codes, text_eq, text_beq_iff, is_blank}
use opensource_project_intel.Evidence.{Object, new_object, verify, PurgeManifest}
use opensource_project_intel.Evidence.Store.{
  Services, put_evidence, get_evidence, promoted, committed,
}
use opensource_project_intel.Evidence.Kept.{IsReliable, put_evidence-get}

-- A digest that keeps the bytes, and keys without the digest.
abbrev sha256 : List ℕ → List ℕ
sha256 bytes = bytes

abbrev key_of : ℤ → List ℕ → Text
key_of project_id digest = codes "k"

abbrev body : List ℕ
body = 7 ∷ 8 ∷ []

abbrev other : List ℕ
other = 9 ∷ []

abbrev page : Object
page = record {
  id = pos 1;
  project_id = pos 2;
  key = codes "k";
  digest = 7 ∷ 8 ∷ [];
  size = pos 2;
  media_type = codes "text/html";
}

page-new : new_object sha256 key_of (pos 1) (pos 2) (codes "text/html") body ≡ ok page
unfolding new_object is_blank
page-new = refl

abbrev purge : PurgeManifest
purge = record { project_id = pos 2; keys = codes "a" ∷ codes "b" ∷ []; deleted = codes "b" ∷ [] }

-- Services in memory that never fail: what the keys hold and what the catalog has.
abbrev World : Type 0
World = (Text → Option (List ℕ)) × (ℤ → ℤ → Option Object)

abbrev answer : {A : Type 0} → Option A → Result Text A
answer (some a) = ok a
answer none = err (codes "missing")

abbrev set_key : Text → Option (List ℕ) → (Text → Option (List ℕ)) → Text → Option (List ℕ)
set_key key value blobs k = if k == key then value else blobs k

abbrev memory : Services World
memory = record {
  stage = λ key body media w. (ok tt, (set_key key (some body) w.0, w.1));
  read = λ key w. (answer (w.0 key), w);
  promote = λ from to w. (ok tt, (set_key from none (set_key to (w.0 from) w.0), w.1));
  delete = λ key w. (set_key key none w.0, w.1);
  commit = λ object w. (
    ok tt,
    (w.0, λ p i. if p == object.project_id && i == object.id then some object else w.1 p i),
  );
  find = λ p i w. (answer (w.1 p i), w);
  sha256 = sha256;
  key_of = key_of;
  staged_suffix = λ id. codes ".staged";
}

answer-eq-ok : {A : Type 0} (o : Option A) {a : A} → answer o ≡ ok a → o ≡ some a
answer-eq-ok (some a) e = cc
answer-eq-ok none e = cc

set_key-get :
    (key : Text) (value : Option (List ℕ)) (blobs : Text → Option (List ℕ))
    → set_key key value blobs key ≡ value
set_key-get key value blobs = ground (arith, text_beq_iff key key)

memory-promotes :
    (from to : Text) (blobs : Text → Option (List ℕ))
    → ¬ (from ≡ to)
    → set_key from none (set_key to (blobs from) blobs) to ≡ blobs from
memory-promotes from to blobs h = ground (arith, text_beq_iff to to, text_beq_iff to from)

memory-commits :
    (object : Object) (w : World)
    → (memory.commit object w).1.1 object.project_id object.id ≡ some object
memory-commits object w =
    ground (arith, int_beq_iff object.project_id object.project_id, int_beq_iff object.id object.id)

memory-IsReliable : IsReliable memory (λ w. w.0) (λ w. w.1)
memory-IsReliable = record {
  stages = λ key body media w w' e. ap (λ r. r.1.0 key) (sym e) ∙ set_key-get key (some body) w.0;
  suffixes = λ id e. cc;
  reads = λ key w w' body e. answer-eq-ok (w.0 key) (ap (λ r. r.0) e);
  read_keeps = λ key w w' r e. cc;
  promotes = λ from to w w' h e. ap (λ r. r.1.0 to) (sym e) ∙ memory-promotes from to w.0 h;
  commits = λ object w w' e.
      ap (λ r. r.1.1 object.project_id object.id) (sym e) ∙ memory-commits object w;
  commit_keeps = λ object w w' r e. cc;
  finds = λ p i w w' object e. answer-eq-ok (w.1 p i) (ap (λ r. r.0) e);
  find_keeps = λ p i w w' r e. cc;
}

abbrev nothing : World
nothing = (λ _. none, λ _ _. none)

abbrev filled : World
filled = (put_evidence memory (pos 1) (pos 2) (codes "text/html") body nothing).1

filled-put :
    put_evidence memory (pos 1) (pos 2) (codes "text/html") body nothing ≡ (ok page, filled)
unfolding put_evidence promoted committed new_object verify is_blank
filled-put = refl

put_evidence-get_example :
    ((get_evidence memory (pos 2) (pos 1) filled).0 ≡ ok body)
    ⊎ (e : Text) × (((memory.find (pos 2) (pos 1) filled).0 ≡ err e)
        ⊎ ((memory.read page.key (memory.find (pos 2) (pos 1) filled).1).0 ≡ err e))
put_evidence-get_example =
    put_evidence-get memory memory-IsReliable (pos 1) (pos 2) (codes "text/html") body nothing
      filled filled-put
