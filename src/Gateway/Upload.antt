-- ===== src/Gateway/Upload.antt =====
-- `handlePush` of internal/server/gateway/gateway.go: the parts of a multipart body, what the handler
-- answers, and what it writes to the audit log.
use spool_rack.Prelude.{
  ℕ, Bytes, codes, Bool, true, false, ◌&&◌, ◌||◌, Option, none, some, List, [], ◌∷◌, ◌==◌, bytes_eq,
  nat_beq, length, leb, if◌then◌else◌,
}
use spool_rack.Fault.{
  Error, Result, Done, ok, err, non_fast_forward_head, unsupported_contract_version, invalid_frame,
  invalid_canonical_frame,
}
use spool_rack.Sync.Contract.{Contract}
use spool_rack.Push.Checks.{CommitRecord, PushRequest}

-- What the reader of the body gives next: a part, by the name of its form and its bytes or the error in
-- which they end, or a failure. The end of the list is the end of the body.
pub data Part : Type 0 where
  part : (form_name : Bytes) (content : Result Bytes) → Part
  broken : Part

-- The message of an answer: the handler's own, or the guidance or the text of an error.
pub data Message : Type 0 where
  plain : Bytes → Message
  guidance_of error_text : Error → Message

-- What is written to the client: the branch and its head, or an error,
-- less the correlation id.
pub data Response : Type 0 where
  pushed : (branch head_commit : Bytes) → Response
  json_error : (status : ℕ) (code : Bytes) (message : Message) (current_head : Bytes) → Response

-- `audit.Event`, less the actor, the correlation id and the time
pub record Event : Type 0 where
  pub tenant_id : Bytes
  pub repo_id : Bytes
  pub branch : Bytes
  pub action : Bytes
  pub outcome : Bytes
  pub previous_ref : Bytes
  pub new_ref : Bytes
  pub contract_version : ℕ
  pub detail : Bytes

-- `pushPackHashPattern`
unfoldable pub is_pack_hash : Bytes → Bool
is_pack_hash text = nat_beq (length text) 64 && all_hex text
  where
    is_hex : ℕ → Bool
    is_hex c = (leb 48 c && leb c 57) || (leb 97 c && leb c 102)

    all_hex : Bytes → Bool
    all_hex [] = true
    all_hex (c ∷ text) = is_hex c && all_hex text

abbrev bad_request : Bytes → Response
bad_request message = json_error 400 (codes "bad_request") (plain message) []

module _ (g : Contract) where
  -- `pushMetadata`
  pub record PushMetadata : Type 0 where
    pub branch : Bytes
    pub base_commit : Bytes
    pub target_commit : Bytes
    pub pack_hash : Bytes
    pub pack_format : ℕ
    pub commits : List (CommitRecord g)

  abbrev pub no_metadata : PushMetadata
  no_metadata = record {
    branch = [];
    base_commit = [];
    target_commit = [];
    pack_hash = [];
    pack_format = 0;
    commits = [];
  }

  -- The tenant and the repository are those of the context of the request.
  module _ (tenant_id repo_id : Bytes) where
    abbrev pub push_event : PushMetadata → (outcome new_ref detail : Bytes) → Event
    push_event meta outcome new_ref detail = record {
      tenant_id = tenant_id;
      repo_id = repo_id;
      branch = meta.branch;
      action = codes "push";
      outcome = outcome;
      previous_ref = meta.base_commit;
      new_ref = new_ref;
      contract_version = meta.pack_format;
      detail = detail;
    }

    abbrev pub push_request : PushMetadata → Result Bytes → PushRequest g
    push_request meta content = record {
      tenant_id = tenant_id;
      repo_id = repo_id;
      branch = meta.branch;
      target_commit = meta.target_commit;
      base_commit = meta.base_commit;
      commits = meta.commits;
      pack_hash = meta.pack_hash;
      pack_format = meta.pack_format;
      pack_stream = some content;
    }

    abbrev rejected_event : PushMetadata → Bytes → Event
    rejected_event meta detail = push_event meta (codes "rejected") meta.target_commit detail

    -- the answer to an error of the push engine
    unfoldable pub push_failed : PushMetadata → Error → Response × List Event
    push_failed meta (non_fast_forward_head head) = (
      json_error 409 (codes "conflict") (guidance_of (non_fast_forward_head head)) head,
      push_event meta (codes "rejected") head (codes "non-fast-forward push") ∷ [],
    )
    push_failed meta unsupported_contract_version = (
      json_error 400 (codes "unsupported_contract_version")
          (error_text unsupported_contract_version) [],
      rejected_event meta (codes "unsupported contract version") ∷ [],
    )
    push_failed meta invalid_frame = (
      bad_request (codes "invalid or malformed push pack"),
      rejected_event meta (codes "invalid push pack or metadata") ∷ [],
    )
    push_failed meta invalid_canonical_frame = (
      bad_request (codes "invalid or malformed push pack"),
      rejected_event meta (codes "invalid push pack or metadata") ∷ [],
    )
    push_failed meta reason = (
      bad_request (codes "push request could not be processed"),
      rejected_event meta (codes "invalid push pack or metadata") ∷ [],
    )

    abbrev pub push_answer : PushMetadata → Done → Response × List Event
    push_answer meta (err reason) = push_failed meta reason
    push_answer meta (ok tt) = (
      pushed meta.branch meta.target_commit,
      push_event meta (codes "verified") meta.target_commit [] ∷ [],
    )

    -- `engine` is `HandlePush`, and `decode` is encoding/json, which keeps the fields that its input
    -- does not name.
    module _ {W : Type 0} (engine : PushRequest g → W → Done × W)
        (decode : Result Bytes → PushMetadata → Option PushMetadata) where
      abbrev Serve : Type 0
      Serve = Bool → PushMetadata → W → (Response × List Event) × W

      abbrev reject : Bytes → W → (Response × List Event) × W
      reject message w = ((bad_request message, []), w)

      abbrev pub take_metadata : Option PushMetadata → Serve → W → (Response × List Event) × W
      take_metadata none rest w = reject (codes "metadata part must contain valid JSON") w
      take_metadata (some meta) rest w =
          if is_pack_hash meta.pack_hash
          then rest true meta w
          else reject (codes "packHash must be 64 lowercase hex characters") w

      abbrev pub take_pack : PushMetadata → Done × W → (Response × List Event) × W
      take_pack meta (done, w) = (push_answer meta done, w)

      unfoldable pub take_part : Bytes → Result Bytes → Serve → Serve
      take_part form_name content rest saw_metadata_part meta w =
          if form_name == codes "metadata"
          then take_metadata (decode content meta) rest w
          else if form_name == codes "pack"
          then (if saw_metadata_part
              then take_pack meta (engine (push_request meta content) w)
              else reject (codes "metadata part must precede pack part") w)
          else rest saw_metadata_part meta w

      -- the loop over the parts
      unfoldable pub read_parts : List Part → Serve
      read_parts [] saw_metadata_part meta w =
          reject (codes "request must include metadata and pack parts") w
      read_parts (broken ∷ parts) saw_metadata_part meta w =
          reject (codes "failed to read multipart body") w
      read_parts (part form_name content ∷ parts) saw_metadata_part meta w =
          take_part form_name content (read_parts parts) saw_metadata_part meta w

      -- `handlePush`; the body is `none` where it is not multipart
      unfoldable pub serve_push :
          (configured : Bool) (body : Option (List Part)) → W → (Response × List Event) × W
      serve_push false body w = (
        (
          json_error 501 (codes "not_implemented")
              (plain (codes "push is not configured on this server")) [],
          [],
        ),
        w,
      )
      serve_push true none w = reject (codes "request must be multipart/form-data") w
      serve_push true (some parts) w = read_parts parts false no_metadata w
