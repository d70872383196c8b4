-- ===== src/Fga/Tuples.antt =====
-- Writing and deleting tuples: what each leaves stored, and what it can do to access.
use gontext.Base.{String, string_eq, ◌==◌, eq_iff}
use gontext.Base.{◌≡◌}
use gontext.Base.{true, false, ◌&&◌}
use gontext.Base.{arith, if◌then◌else◌}
use gontext.Base.Dict.{put, remove, get2, put2, get-put, get-remove, get2-put2, or_empty}
use gontext.Fga.{Memory, has, subjects, grant, revoke, writable, deletable}

module _ (m : Memory) (o r s : String) where
  relations-grant :
      (grant m o r s).relations
      ≡ put2 m.relations o (writable r) (put (subjects m o (writable r)) s true)
  unfolding grant
  relations-grant = ground arith

  pub subjects-grant :
      (p q : String)
      → subjects (grant m o r s) p q ≡ (
          if o == p && writable r == q
          then put (subjects m o (writable r)) s true
          else subjects m p q)
  unfolding subjects
  subjects-grant p q = rw relations-grant (
      ground
        (arith, get2-put2 m.relations o (writable r) p q (put (subjects m o (writable r)) s true)))

  -- A grant stores its tuple under the writable relation and no other.
  pub has-grant :
      (p q t : String)
      → has (grant m o r s) p q t
        ≡ (if o == p && writable r == q && s == t then true else has m p q t)
  unfolding has
  has-grant p q t = rw subjects-grant (
      ground
        (arith, get-put (subjects m o (writable r)) s t true, eq_iff o p, eq_iff (writable r) q))

  pub subjects-revoke :
      (p q : String)
      → subjects (revoke m o r s) p q ≡ (
          if o == p && deletable r == q
          then remove (subjects m o (deletable r)) s
          else subjects m p q)
  unfolding revoke subjects remove
  subjects-revoke p q = ground (
    arith,
    get2-put2 m.relations o (deletable r) p q
        (remove (or_empty (get2 m.relations o (deletable r))) s),
    eq_iff o p,
    eq_iff (deletable r) q,
  )

  pub has-revoke :
      (p q t : String)
      → has (revoke m o r s) p q t
        ≡ (if o == p && deletable r == q && s == t then false else has m p q t)
  unfolding has
  has-revoke p q t = rw subjects-revoke (
      ground
        (arith, get-remove (subjects m o (deletable r)) s t, eq_iff o p, eq_iff (deletable r) q))
