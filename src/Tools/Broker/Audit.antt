-- ===== src/Tools/Broker/Audit.antt =====
-- What a filesystem tool hands back and what its row of the audit says.
use hibiki.Prelude.{
  ℕ, zero, suc, ◌≡◌, refl, ap, ◌∙◌, true, false, Option, none, some, List, [], ◌∷◌, arith, get, ltb,
  ◌≤◌,
}
use hibiki.Domain.Errors.{ok}
use hibiki.Domain.Types.{AuthContext}
use hibiki.Persistence.Models.{
  Store, AgentRunRow, TaskRow, ToolInvocationRow, DenyReason, ToolOutcome,
}
use hibiki.Persistence.Session.{Env, done, run}
use hibiki.Tools.Broker.{ToolRequest, ToolDecision, authorize_in_tx, binding_error}
use hibiki.Tools.Broker.Finish.{
  record_outcome, bound_invocation, finish_row, refuse_row, eq_outcome,
}
use hibiki.Tools.Broker.Files.{
  Io, value, escape, missing, broken, FileSystem, FileReply, ToolParameters, FileTool, fs_read,
  limit_of, take, length, read_reply, execute_fs, after_decision, perform,
}

take_again : {A : Type 0} (n : ℕ) (xs : List A) → take n (take (suc n) xs) ≡ take n xs
take_again zero xs = refl
take_again (suc n) [] = refl
take_again (suc n) (x ∷ xs) = ap (λ l. x ∷ l) (take_again n xs)

longer_than :
    {A : Type 0} (n : ℕ) (xs : List A) → ltb n (length (take (suc n) xs)) ≡ ltb n (length xs)
longer_than zero [] = refl
longer_than zero (x ∷ xs) = ground arith
longer_than (suc n) [] = refl
longer_than (suc n) (x ∷ xs) = ground (arith, longer_than n xs)

short_take :
    {A : Type 0} (n : ℕ) (xs : List A) → ltb n (length xs) ≡ false → take (suc n) xs ≡ take n xs
short_take zero [] h = refl
short_take zero (x ∷ xs) h = ground arith
short_take (suc n) [] h = refl
short_take (suc n) (x ∷ xs) h = ap (λ l. x ∷ l) (short_take n xs (ground arith))

length-take_bound : {A : Type 0} (n : ℕ) (xs : List A) → length (take n xs) ≤ n
length-take_bound zero xs = omega arith
length-take_bound (suc n) [] = omega arith
length-take_bound (suc n) (x ∷ xs) = ground (arith, length-take_bound n xs)

read_reply-eq :
    (fs : FileSystem) (n : ℕ) (file : List ℕ)
    → read_reply fs n file
      ≡ FileReply.read
          (fs.decode (take n file))
          (fs.sha256 (take n file))
          (length (take n file))
          (ltb n (length file))
read_reply-eq fs n file = ground (arith, take_again n file, longer_than n file, short_take n file)

-- A read of a file that can be read, with a valid limit, succeeds and hands back the decoded text of
-- the first bytes of the file, the digest and the number of those bytes, which are at most as many
-- as the limit, and says that it is truncated exactly when the file is longer than the limit.
pub fs_read-limits :
    (fs : FileSystem) (w relative limit : ℕ) (file : List ℕ) (p : ToolParameters)
    → p.path ≡ some relative
    → limit_of p.max_bytes ≡ value limit
    → fs.read_file w relative ≡ value file
    → (fs_read fs (value w) p
        ≡ value (
            FileReply.read
              (fs.decode (take limit file))
              (fs.sha256 (take limit file))
              (length (take limit file))
              (ltb limit (length file))))
      × (length (take limit file) ≤ limit)
unfolding fs_read
fs_read-limits fs w relative limit file p e l f =
    (ground (arith, read_reply-eq fs limit file), length-take_bound limit file)

-- The invocation is not finished, and the credential is bound to its run.
abbrev pub IsOpen : AuthContext → ℕ → Store → Type 0
IsOpen auth k s =
    (t : ToolInvocationRow) × (r : AgentRunRow) × (task : TaskRow) × (get k s.tool_invocations
      ≡ some t)
    × (get t.run_id s.runs ≡ some r)
    × (get r.task_id s.tasks ≡ some task)
    × (binding_error auth t.run_id r task none ≡ false)
    × (t.outcome ≡ none)

-- What the end of the call writes on its row, and what the caller gets.
abbrev pub ended : Env → Io FileReply → ToolInvocationRow → ToolInvocationRow
ended env (value r) t = finish_row env ToolOutcome.ok t
ended env escape t = refuse_row env DenyReason.path_escape t
ended env missing t = refuse_row env DenyReason.workspace_missing t
ended env broken t = finish_row env ToolOutcome.error t

abbrev pub reply_to : Io FileReply → FileReply
reply_to (value r) = r
reply_to escape = FileReply.denied (some DenyReason.path_escape)
reply_to missing = FileReply.denied (some DenyReason.workspace_missing)
reply_to broken = FileReply.error

-- A call that was not allowed hands back the reason, and does nothing.
pub execute_fs-denied :
    (env : Env) (fs : FileSystem) (root : Option ℕ) (tool : FileTool) (auth : AuthContext)
    (q : ToolRequest) (p : ToolParameters) (others : Store → Store) (d : ToolDecision)
    (s s1 : Store)
    → run (authorize_in_tx env auth q) s ≡ (ok d, s1)
    → d.allowed ≡ false
    → execute_fs env fs root tool auth q p others s ≡ (ok (FileReply.denied d.reason), s1)
unfolding execute_fs after_decision perform
execute_fs-denied env fs root tool auth q p others d s s1 h a =
    ap (after_decision env fs root tool auth q p others) h
    ∙ ap (λ b. perform env fs root tool auth q p others b d.invocation_id d.reason s1) a

-- The outcome of a finished invocation is not overwritten by another one.
pub record_outcome-final :
    (env : Env) (auth : AuthContext) (k : ℕ) (o : ToolOutcome) (s s' : Store)
    (t : ToolInvocationRow) (was : ToolOutcome)
    → get k s.tool_invocations ≡ some t
    → t.outcome ≡ some was
    → record_outcome env auth k o s ≡ done tt s'
    → eq_outcome was o ≡ true
unfolding record_outcome bound_invocation
record_outcome-final env auth k o s s' t was e w h = ground arith
