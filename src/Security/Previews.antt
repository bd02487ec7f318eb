-- ===== src/Security/Previews.antt =====
-- BuildTableSecuritySavePreview and MergeSecuritySavePreviews.
pub mod Laws
use velm.Base.{Bool, true, false, ◌&&◌, not, if◌then◌else◌, Option, none, some}
use velm.Base.{List, [], ◌∷◌, ◌++◌, Text, txt, ◌==◌, text_lt, keep, null, sort_by}
use velm.Runtime.{GoRuntime}
use velm.Security.Model.{Evaluator, member}
use velm.Security.Decision.{Record}
use velm.Security.Access.{allows_record, allows_field}
use velm.Schema.DataTypes.{Column}
use velm.Security.Records.{changed_record_fields, merge_record_snapshot}

pub record Preview : Type 0 where
  pub operation : Text
  pub save_allowed : Bool
  pub record_allowed : Bool
  pub changed_fields : List Text
  pub blocked_fields : List Text

module _ (go : GoRuntime) (now : go.Time) where
  -- the part after the guards: the record first, then each changed field
  unfoldable pub check_fields : Evaluator → Text → List Text → Record go → Preview
  check_fields e operation changed proposed =
      let blocked = keep (λ f. not (allows_field go now (some e) operation f proposed)) changed in
      if not (allows_record go now (some e) operation proposed)
      then record {
        operation = operation;
        save_allowed = false;
        record_allowed = false;
        changed_fields = changed;
        blocked_fields = [];
      }
      else record {
        operation = operation;
        save_allowed = null blocked;
        record_allowed = true;
        changed_fields = changed;
        blocked_fields = blocked;
      }

  abbrev unchecked : Text → List Text → Preview
  unchecked operation changed = record {
    operation = operation;
    save_allowed = true;
    record_allowed = true;
    changed_fields = changed;
    blocked_fields = [];
  }

  -- BuildTableSecuritySavePreview
  unfoldable pub save_preview :
      List Column → Option Evaluator → Bool → Record go → List (Text × Text) → List Text → Preview
  save_preview columns none is_create old form null_columns =
      unchecked (if is_create then txt "C" else txt "U")
        (changed_record_fields go columns old form null_columns)
  save_preview columns (some e) is_create old form null_columns =
      let operation = if is_create then txt "C" else txt "U" in
      let changed = changed_record_fields go columns old form null_columns in
      if not is_create && null changed
      then unchecked operation changed
      else check_fields e operation changed (merge_record_snapshot go old form null_columns)

-- the loops that add what the set of seen fields does not have
unfoldable pub add_new : List Text → List Text → List Text
add_new seen [] = seen
add_new seen (f ∷ fs) = add_new (if member f seen then seen else seen ++ f ∷ []) fs

-- one round of the loop of MergeSecuritySavePreviews
unfoldable pub merge_step : Preview → Preview → Preview
merge_step m p = record {
  operation = if m.operation == [] && not (p.operation == []) then p.operation else m.operation;
  save_allowed = m.save_allowed && p.save_allowed;
  record_allowed = m.record_allowed && p.record_allowed;
  changed_fields = add_new m.changed_fields p.changed_fields;
  blocked_fields = add_new m.blocked_fields p.blocked_fields;
}

unfoldable pub merge_from : Preview → List Preview → Preview
merge_from m [] = m
merge_from m (p ∷ ps) = merge_from (merge_step m p) ps

-- the preview that the merge starts from
abbrev pub no_preview : Preview
no_preview = record {
  operation = [];
  save_allowed = true;
  record_allowed = true;
  changed_fields = [];
  blocked_fields = [];
}

-- MergeSecuritySavePreviews
unfoldable pub merge_previews : List Preview → Preview
merge_previews previews =
    let m = merge_from no_preview previews in
    record m {
      changed_fields = sort_by text_lt m.changed_fields;
      blocked_fields = sort_by text_lt m.blocked_fields;
    }
