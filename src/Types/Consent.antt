-- ===== src/Types/Consent.antt =====
-- The owner consent payloads of api/types/owner_consent.go.
use update_manager.Base.{String, Bool, true, false}
use update_manager.Types.Command.{CommandType}

pub data ConsentStatusType : Type 0 where
  approved denied : ConsentStatusType
  other : String → ConsentStatusType

pub record OwnerConsentFeedback : Type 0 where
  pub status : ConsentStatusType

pub record OwnerConsent : Type 0 where
  pub command : CommandType

-- `s == StatusApproved`
abbrev pub is_approved : ConsentStatusType → Bool
is_approved approved = true
is_approved _ = false
