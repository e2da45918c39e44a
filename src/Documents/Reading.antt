-- ===== src/Documents/Reading.antt =====
-- What a reader of a document of internal/controller/utils.go sees after an edit of it: the decoders
-- around setOptions and appendArgsToContainer, for an encoder whose texts they read.
use shard_controller.Prelude.{◌≡◌, String}
use shard_controller.Errors.{Result, ok, ◌>>=◌, >>=-ok}
use shard_controller.Manifest.{Deployment}
use shard_controller.Documents.{Documents, edit}

-- The Deployment that a document holds.
unfoldable pub read : {U R : Type 0} → Documents U R → String → Result (Deployment R)
read docs document = do u ← docs.patcher.get_unstructured document; docs.from_unstructured u

-- The encoder writes every Deployment, and the decoders read what it writes.
pub record ReadsBack {U R : Type 0} (docs : Documents U R) : Type 0 where
  pub encodes : (d : Deployment R) → (t : String) × (docs.encode d ≡ ok t)
  pub reads_back : (d : Deployment R) (t : String) → docs.encode d ≡ ok t → read docs t ≡ ok d

module _ {U R : Type 0} (docs : Documents U R) (back : ReadsBack docs) where
  pub edit-read :
      (f : Deployment R → Deployment R) (t t' : String) (d : Deployment R)
      → read docs t ≡ ok d
      → edit docs f t ≡ ok t'
      → read docs t' ≡ ok (f d)
  unfolding read
  edit-read f t t' d h e =
      let (u, p, e1) = >>=-ok (docs.patcher.get_unstructured t) _ e in
      let (x, q, e2) = >>=-ok (docs.from_unstructured u) _ e1 in
      let same : x ≡ d = let k = rw (p, q) at h in cc in back.reads_back (f d) t' (rw same at e2)

  pub edit-ok :
      (f : Deployment R → Deployment R) (t : String) (d : Deployment R)
      → read docs t ≡ ok d
      → (t' : String) × (edit docs f t ≡ ok t')
  unfolding read
  edit-ok f t d h =
      let (u, p, q) = >>=-ok (docs.patcher.get_unstructured t) _ h in
      let (t', e) = back.encodes (f d) in (t', rw (p, q) e)
