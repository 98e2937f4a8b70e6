-- ===== src/Deployer/Database/Atomic.antt =====
-- StragetyDeployer/dbopmacros.h: which objects of a request remain in the table when one of them fails.
use cpp_linux_learn.Common.{
  ℕ, ◌≡◌, ◌⊎◌, refl, ap, ◌∙◌, Bool, true, false, Option, none, some, Option-cases, inl, inr, List,
  [], ◌∷◌,
}
use cpp_linux_learn.Deployer.Database.{
  Sqlite, Store, step_rows, after_step, ended, insert_by_vector,
}
use cpp_linux_learn.Deployer.Database.Documented.{
  is_negative, apply_all, or_same, apply_prefix, fails, IsSqlite,
}

module _ {Db Row Content : Type 0} (lib : Sqlite Db Row)
    (effect : List ℕ → Row → Content → Option Content) where
  module _ {content saved : Db → Content} {autocommit : Db → Bool}
      (doc : IsSqlite lib effect content saved autocommit) where
    -- What the loop leaves outside of a transaction.
    record IsFree (sql : List ℕ) (rs : List Row) (d : Db) (out : Store Db × Option ℕ) : Type 0 where
      rows : content out.0.db ≡ apply_prefix lib effect sql rs (content d)
      result : is_negative out.1 ≡ fails lib effect (apply_all lib effect sql rs (content d))
      mode : autocommit out.0.db ≡ true

    after_step-IsFree :
        (sql : List ℕ) (r : Row) (rs : List Row) (st : Store Db) (p : Db × Option ℕ)
        (e : Option Content)
        → ((n : ℕ) (t : Store Db)
            → autocommit t.db ≡ true
            → IsFree sql rs t.db (step_rows lib sql rs n t))
        → effect sql r (content st.db) ≡ e
        → content p.0 ≡ or_same lib effect (content st.db) e
        → is_negative p.1 ≡ fails lib effect e
        → autocommit p.0 ≡ true
        → IsFree sql (r ∷ rs) st.db (after_step lib (λ n t. step_rows lib sql rs n t) st p)
    after_step-IsFree sql r rs st (d, none) none ih he hc hr hm = record {
      rows = rw he hc;
      result = rw he;
      mode = hm;
    }
    after_step-IsFree sql r rs st (d, none) (some c) ih he hc hr hm = absurd (cc hr)
    after_step-IsFree sql r rs st (d, some n) none ih he hc hr hm = absurd (cc hr)
    after_step-IsFree sql r rs st (d, some n) (some c) ih he hc hr hm =
        let later = ih n (record st { db = d }) hm in
        record {
          rows = rw he (later.rows ∙ ap (apply_prefix lib effect sql rs) hc);
          result =
              rw he (later.result ∙ ap (λ x. fails lib effect (apply_all lib effect sql rs x)) hc);
          mode = later.mode;
        }

    step_rows-IsFree :
        (sql : List ℕ) (rs : List Row) (res : ℕ) (st : Store Db)
        → autocommit st.db ≡ true
        → IsFree sql rs st.db (step_rows lib sql rs res st)
    unfolding step_rows
    step_rows-IsFree sql [] res st h = record { rows = refl; result = refl; mode = h }
    step_rows-IsFree sql (r ∷ rs) res st h = elim (Option-cases (effect sql r (content st.db))) [
      | inl e ↦
          let (same, free) = doc.step_failed sql r st.db e h in
          after_step-IsFree sql r rs st (lib.step sql r st.db) none
            (λ n t k. step_rows-IsFree sql rs n t k) e same
            (doc.step_result sql r st.db ∙ ap (fails lib effect) e) free
      | inr (c, e) ↦
          let (moved, mode) = doc.step_content sql r st.db c e in
          after_step-IsFree sql r rs st (lib.step sql r st.db) (some c)
            (λ n t k. step_rows-IsFree sql rs n t k) e moved
            (doc.step_result sql r st.db ∙ ap (fails lib effect) e) (mode ∙ h)
    ]

    -- What it leaves within one: all the objects' changes and the transaction, or, when one failed, the
    -- transaction or what was there at its begin.
    abbrev Within : Content → Option Content → Db → Type 0
    Within before none d =
        ((saved d ≡ before) × (autocommit d ≡ false))
        ⊎ ((content d ≡ before) × (autocommit d ≡ true))
    Within before (some c) d = (content d ≡ c) × (saved d ≡ before) × (autocommit d ≡ false)

    record IsWithin (sql : List ℕ) (rs : List Row) (d : Db) (out : Store Db × Option ℕ)
        : Type 0 where
      left : Within (saved d) (apply_all lib effect sql rs (content d)) out.0.db
      result : is_negative out.1 ≡ fails lib effect (apply_all lib effect sql rs (content d))

    -- The end of the loop without a transaction, and within one.
    ended-autocommit :
        (sql : List ℕ) (rs : List Row) (d : Db) (out : Store Db × Option ℕ)
        → IsFree sql rs d out
        → (content (ended lib out).0.db ≡ apply_prefix lib effect sql rs (content d))
          × (is_negative (ended lib out).1
              ≡ fails lib effect (apply_all lib effect sql rs (content d)))
    ended-autocommit sql rs d (st, none) k =
        ((doc.rollback_content st.db k.mode).0 ∙ k.rows, k.result)
    ended-autocommit sql rs d (st, some n) k = (doc.commit_content st.db k.mode ∙ k.rows, k.result)

    -- All the changes, or those of none, or a transaction that is still open.
    abbrev pub Atomically : Content → Option Content → Db → Type 0
    Atomically before none d = (content d ≡ before) × (autocommit d ≡ true)
    Atomically before (some c) d =
        ((content d ≡ c) × (autocommit d ≡ true))
        ⊎ (((content d ≡ before) × (autocommit d ≡ true))
            ⊎ ((saved d ≡ before) × (autocommit d ≡ false)))

    -- An insertion or an update is not. Under the same conditions the objects before the first one that
    -- fails have changed the tables and stay there, although the result is negative exactly when one fails.
    pub insert_by_vector-prefix :
        (sql : List ℕ) (r : Row) (rs : List Row) (st : Store Db)
        → lib.prepare sql st.db ≡ true
        → autocommit st.db ≡ true
        → let out = insert_by_vector lib sql (r ∷ rs) st in
          (content out.0.db ≡ apply_prefix lib effect sql (r ∷ rs) (content st.db))
          × (is_negative out.1
              ≡ fails lib effect (apply_all lib effect sql (r ∷ rs) (content st.db)))
    unfolding insert_by_vector
    insert_by_vector-prefix sql r rs st hp ha = rw hp (
        ended-autocommit sql (r ∷ rs) st.db (step_rows lib sql (r ∷ rs) 0 st)
          (step_rows-IsFree sql (r ∷ rs) 0 st ha))
