-- ===== src/Odb/Samples.antt =====
-- Runs of `odb_update_node_with_offset` (libdb/db_insert.c) over a sequence of samples, and the
-- multiset of samples that a database stands for.
use oprofile.Base.{
  u32, ℕ, zero, suc, ◌+◌, ◌*◌, ◌≤◌, ◌<◌, ◌≡◌, ◌∙◌, refl, Option, some, none, arith, List, [], ◌∷◌,
  length,
}
use oprofile.Odb.{OdbData, GrowCalls, odb_update_node_with_offset}
use oprofile.Odb.Valid.{IsValid, IsKeyed, count_of}
use oprofile.Odb.Update.{added}
use oprofile.Odb.Count.{Succeeds}
use oprofile.Odb.Refine.{IsTight, odb_update_node_with_offset-Updated}

-- One update, with what the system answers should the table have to grow.
pub record Sample : Type 0 where
  pub calls : GrowCalls
  pub key : ℕ
  pub offset : ℕ

-- The updates in turn; `none` when one does not end, or returns an error.
pub log_samples : ℕ → List Sample → OdbData → Option OdbData
log_samples rounds [] d = some d
log_samples rounds (s ∷ rest) d =
    elim (odb_update_node_with_offset rounds s.calls d s.key s.offset) [
      | none ↦ none
      | some (r, zero) ↦ log_samples rounds rest r
      | some (r, suc _) ↦ none
    ]

-- What the samples count for a key.
abbrev pub sum_of : List Sample → ℕ → ℕ
sum_of [] k = 0
sum_of (s ∷ rest) k = added s.key s.offset k + sum_of rest k

abbrev pub AllSucceed : List Sample → Type 0
AllSucceed [] = Unit
AllSucceed (s ∷ rest) = Succeeds s.calls × AllSucceed rest

-- The database `r` counts the samples on top of what `d` counts.
pub record Logged (d : OdbData) (samples : List Sample) (r : OdbData) : Type 0 where
  pub valid : IsValid r
  pub counts : (k : ℕ) → count_of r k ≡ count_of d k + sum_of samples k
  pub keyed : IsKeyed d → IsKeyed r
  pub tight : IsTight d → IsTight r
  pub nodes : r.current_size ≤ d.current_size + length samples
  pub offset_node : r.offset_node ≡ d.offset_node

log_samples_step :
    (rounds : ℕ) (x : Sample) (rest : List Sample) (d m : OdbData)
    → odb_update_node_with_offset rounds x.calls d x.key x.offset ≡ some (m, 0)
    → log_samples rounds (x ∷ rest) d ≡ log_samples rounds rest m
unfolding log_samples
log_samples_step rounds x rest d m e = rw (e, log_samples)

pub log_samples-Logged :
    (rounds : ℕ) (samples : List Sample) (d : OdbData)
    → IsValid d
    → IsTight d
    → AllSucceed samples
    → d.current_size + length samples ≤ rounds
    → d.offset_node + 40 * (128 + 2 * (d.current_size + length samples)) < u32
    → ((k : ℕ) → count_of d k + sum_of samples k < u32)
    → (r : OdbData) × (log_samples rounds samples d ≡ some r) × Logged d samples r
unfolding log_samples
log_samples-Logged rounds [] d v t s enough small fits = (
  d,
  refl,
  record {
    valid = v;
    counts = λ k. omega arith;
    keyed = λ h. h;
    tight = λ h. h;
    nodes = omega arith;
    offset_node = refl;
  },
)
log_samples-Logged rounds (x ∷ rest) d v t (s, ss) enough small fits =
    let (m, step, u) =
      odb_update_node_with_offset-Updated rounds x.calls d x.key x.offset v (omega arith) s
        (omega arith) (ground (arith, fits x.key)) in
    let (r, run, l) =
      log_samples-Logged rounds rest m u.valid (u.tight t) ss (omega (arith, u.grows))
        (omega (arith, u.grows, u.offset_node)) (λ k. omega (arith, u.counts k, fits k)) in
    (
      r,
      log_samples_step rounds x rest d m step ∙ run,
      record {
        valid = l.valid;
        counts = λ k. omega (arith, l.counts k, u.counts k);
        keyed = λ h. l.keyed (u.keyed h);
        tight = λ h. l.tight (u.tight h);
        nodes = omega (arith, l.nodes, u.grows);
        offset_node = l.offset_node ∙ u.offset_node;
      },
    )
