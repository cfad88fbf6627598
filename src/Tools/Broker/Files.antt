-- ===== src/Tools/Broker/Files.antt =====
-- broker.py: the filesystem tools. The operating system and WorkspacePaths are a record of functions;
-- paths and hashes are numbers, the content of a file is a list of bytes.
use hibiki.Prelude.{
  ℕ, zero, suc, Bool, true, Option, none, some, List, [], ◌∷◌, ltb, if◌then◌else◌, get,
}
use hibiki.Domain.Errors.{Result, ok, err}
use hibiki.Domain.Types.{AuthContext}
use hibiki.Persistence.Models.{Store, RunInputRow, DenyReason, ToolOutcome}
use hibiki.Persistence.Session.{Env, M, pure, run, ◌>>◌}
use hibiki.Tools.Broker.{ToolRequest, ToolDecision, authorize_in_tx}
use hibiki.Tools.Broker.Finish.{record_outcome, record_refusal}

-- A value, PathSafetyError, WorkspaceMissingError, or any other exception.
pub data Io {ℓ} (A : Type ℓ) : Type ℓ where
  value : A → Io A
  escape missing broken : Io A

abbrev pub then_io {ℓ κ} : {A : Type ℓ} {B : Type κ} → Io A → (A → Io B) → Io B
then_io (value a) f = f a
then_io escape f = escape
then_io missing f = missing
then_io broken f = broken

-- The files, and what the standard library makes of bytes: `decode` is
-- `data.decode("utf-8", errors="replace")` as a list of characters, and `sha256` the digest.
-- `atomic_write` hands back the digest of what it wrote.
pub record FileSystem : Type 0 where
  pub is_dir : ℕ → Bool
  pub realpath : ℕ → ℕ
  pub is_inside : (root path : ℕ) → Bool
  pub read_file : (workspace relative : ℕ) → Io (List ℕ)
  pub list_dir : (workspace relative : ℕ) → Io (List ℕ)
  pub atomic_write : (workspace relative : ℕ) → List ℕ → Io ℕ
  pub decode : List ℕ → List ℕ
  pub sha256 : List ℕ → ℕ

-- The parameters: a text that is not empty, a number, a text in UTF-8. A limit below 1 is 0 here.
pub record ToolParameters : Type 0 where
  pub path : Option ℕ
  pub max_bytes : Option ℕ
  pub content : Option (List ℕ)

abbrev pub max_read_bytes : ℕ
max_read_bytes = 262144

abbrev pub under_root : FileSystem → Option ℕ → ℕ → Io ℕ
under_root fs none resolved = value resolved
under_root fs (some root) resolved =
    if fs.is_inside (fs.realpath root) resolved then value resolved else escape

abbrev pub recorded_workspace : FileSystem → Option ℕ → Option ℕ → Io ℕ
recorded_workspace fs root none = missing
recorded_workspace fs root (some recorded) =
    if fs.is_dir recorded then under_root fs root (fs.realpath recorded) else missing

abbrev pub path_of : Option RunInputRow → Option ℕ
path_of none = none
path_of (some input) = input.workspace_path

unfoldable pub workspace_for : FileSystem → Option ℕ → ℕ → Store → Io ℕ
workspace_for fs root run_id s = recorded_workspace fs root (path_of (get run_id s.run_inputs))

abbrev pub need {ℓ} : {A : Type ℓ} → Option A → Io A
need none = broken
need (some a) = value a

abbrev pub limit_of : Option ℕ → Io ℕ
limit_of none = value max_read_bytes
limit_of (some zero) = broken
limit_of (some (suc n)) = value (suc n)

abbrev pub take {ℓ} : {A : Type ℓ} → ℕ → List A → List A
take zero xs = []
take (suc n) [] = []
take (suc n) (x ∷ xs) = x ∷ take n xs

abbrev pub length {ℓ} : {A : Type ℓ} → List A → ℕ
length [] = 0
length (x ∷ xs) = suc (length xs)

-- What a tool hands back.
pub data FileReply : Type 0 where
  denied : Option DenyReason → FileReply
  error : FileReply
  read : (content : List ℕ) → (hash bytes : ℕ) → (truncated : Bool) → FileReply
  listing : (entries : List ℕ) → FileReply
  written : (hash bytes : ℕ) → FileReply

-- `handle.read(limit + 1)`, cut to the limit and decoded; the digest and the length are of the bytes.
abbrev pub read_reply : FileSystem → ℕ → List ℕ → FileReply
read_reply fs limit file =
    let data_read = take (suc limit) file in
    let truncated = ltb limit (length data_read) in
    let kept = if truncated then take limit data_read else data_read in
    FileReply.read (fs.decode kept) (fs.sha256 kept) (length kept) truncated

unfoldable pub fs_read : FileSystem → Io ℕ → ToolParameters → Io FileReply
fs_read fs workspace p = then_io (need p.path) (λ relative. then_io (limit_of p.max_bytes) (λ limit.
    then_io workspace
      (λ w. then_io (fs.read_file w relative) (λ file. value (read_reply fs limit file)))))

unfoldable pub fs_list : FileSystem → Io ℕ → ToolParameters → Io FileReply
fs_list fs workspace p = then_io (need p.path) (λ relative.
    then_io workspace
      (λ w. then_io (fs.list_dir w relative) (λ entries. value (FileReply.listing entries))))

unfoldable pub fs_write : FileSystem → Io ℕ → ToolParameters → Io FileReply
fs_write fs workspace p = then_io (need p.path) (λ relative. then_io (need p.content) (λ content.
    then_io workspace (λ w.
      then_io (fs.atomic_write w relative content)
        (λ hash. value (FileReply.written hash (length content))))))

-- The transaction after the work: the outcome, `_refuse` or `_fail`.
unfoldable pub conclude : Env → AuthContext → ℕ → Io FileReply → M FileReply
unfolding record_outcome record_refusal
conclude env auth k (value r) = record_outcome env auth k ToolOutcome.ok >> pure r
conclude env auth k escape =
    record_refusal env auth k DenyReason.path_escape
    >> pure (FileReply.denied (some DenyReason.path_escape))
conclude env auth k missing =
    record_refusal env auth k DenyReason.workspace_missing
    >> pure (FileReply.denied (some DenyReason.workspace_missing))
conclude env auth k broken = record_outcome env auth k ToolOutcome.error >> pure FileReply.error

-- A tool: what it does with the workspace and the parameters.
abbrev pub FileTool : Type 0
FileTool = FileSystem → Io ℕ → ToolParameters → Io FileReply

module _ (env : Env) (fs : FileSystem) (root : Option ℕ) (tool : FileTool) (auth : AuthContext)
    (q : ToolRequest) (p : ToolParameters) (others : Store → Store) where
  -- A decision that allows the call has the key of its row.
  unfoldable pub perform : Bool → Option ℕ → Option DenyReason → Store → Result FileReply × Store
  unfolding run conclude workspace_for
  perform true (some k) reason s =
      run (conclude env auth k (tool fs (workspace_for fs root q.run_id s) p)) (others s)
  perform _ k reason s = (ok (FileReply.denied reason), s)

  unfoldable pub after_decision : Result ToolDecision × Store → Result FileReply × Store
  unfolding perform
  after_decision (err e, s) = (err e, s)
  after_decision (ok d, s) = perform d.allowed d.invocation_id d.reason s

  -- The body that execute_fs_read, execute_fs_list and execute_fs_write share. `others` is what
  -- other transactions commit while the tool works.
  unfoldable pub execute_fs : Store → Result FileReply × Store
  unfolding run authorize_in_tx after_decision
  execute_fs s = after_decision (run (authorize_in_tx env auth q) s)
