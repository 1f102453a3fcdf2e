-- ===== src/Database/Ending.antt =====
-- A transaction that has ended stays ended.
use profile_service_cpp.Prelude.{false, not, ◌&&◌, List, [], ◌∷◌, ◌≡◌, ◌∙◌, refl, arith}
use profile_service_cpp.Platform.{Platform}
use profile_service_cpp.Effect.{ok, Action, ret, ◌>>◌}
use profile_service_cpp.Effect.Laws.{bind-ok}
use profile_service_cpp.Database.Transaction.{PostgresTransaction, commit, rollback, destroy}

-- the two methods that end a transaction
pub data Ending : Type 0 where
  commits : Ending
  rollbacks : Ending

module _ (P : Platform) where
  abbrev pub end_by : Ending → Action (PostgresTransaction P) (Unit {0})
  end_by commits = commit P
  end_by rollbacks = rollback P

  -- one call after the other
  abbrev pub end_all : List Ending → Action (PostgresTransaction P) (Unit {0})
  end_all [] = ret tt
  end_all (e ∷ es) = end_by e >> end_all es

  ended :
      (e : Ending) (t t' : PostgresTransaction P)
      → end_by e t ≡ (ok tt, t')
      → (t'.has_txn && not t'.committed) ≡ false
  unfolding commit rollback
  ended commits t t' h = ground arith
  ended rollbacks t t' h = ground arith

  module _ (t : PostgresTransaction P) (over : (t.has_txn && not t.committed) ≡ false) where
    end_by-ended : (e : Ending) → end_by e t ≡ (ok tt, t)
    unfolding commit rollback
    end_by-ended commits = rw over refl
    end_by-ended rollbacks = rw over refl

    end_all-ended : (es : List Ending) → end_all es t ≡ (ok tt, t)
    end_all-ended [] = refl
    end_all-ended (e ∷ es) =
        bind-ok (end_by e) (λ _. end_all es) t (end_by-ended e) ∙ end_all-ended es

    destroy-ended : destroy P t ≡ (ok tt, t)
    unfolding destroy
    destroy-ended = ground arith

  -- After a `Commit` or a `Rollback` that succeeds, whatever further calls of the two and then the
  -- destructor do nothing: they throw nothing and leave the transaction and the world alone.
  pub end_all-destroy :
      (e : Ending) (es : List Ending) (t t' : PostgresTransaction P)
      → end_by e t ≡ (ok tt, t')
      → (end_all es >> destroy P) t' ≡ (ok tt, t')
  end_all-destroy e es t t' h =
      let over = ended e t t' h in
      bind-ok (end_all es) (λ _. destroy P) t' (end_all-ended t' over es) ∙ destroy-ended t' over
