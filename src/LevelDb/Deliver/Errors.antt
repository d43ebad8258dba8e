-- ===== src/LevelDb/Deliver/Errors.antt =====
-- What `deliver` does with a library error and with requests that are no commands.
use diversity.Prelude.{
  ℕ, zero, suc, ◌<◌, ◌≡◌, ◌⊎◌, inl, inr, some, arith, ◌==◌, if◌then◌else◌, get_elem?, Bytes,
}
use diversity.LevelDb.Api.{LevelDb}
use diversity.LevelDb.Deliver.{invalid_op, failed, op_of, plain, deliver}

module _ (lib : LevelDb) where
  -- A request whose first byte is 0 fails, and one whose first byte is above 3 is an invalid
  -- operation; neither asks the database anything, and no value is returned.
  pub deliver_rejects :
      (request : Bytes) (op : ℕ) (w : lib.World)
      → get_elem? request 0 ≡ some op
      → ((op ≡ 0) ⊎ (3 < op))
      → deliver lib request w ≡ some (plain (if op == 0 then failed else invalid_op), w)
  unfolding deliver op_of
  deliver_rejects request op w h (inl z) = rw (h, z)
  deliver_rejects request zero w h (inr b) = absurd (omega arith)
  deliver_rejects request (suc zero) w h (inr b) = absurd (omega arith)
  deliver_rejects request (suc (suc zero)) w h (inr b) = absurd (omega arith)
  deliver_rejects request (suc (suc (suc zero))) w h (inr b) = absurd (omega arith)
  deliver_rejects request (suc (suc (suc (suc n)))) w h (inr b) = ground arith
