-- ===== src/Domain/Ids.antt =====
-- internal/ledger/domain/ids.go. The eight kinds of identifier are strings with the same code.
use distributed_wallet_ledge.Prelude.{Bool, Text, trim_space, is_empty}
use distributed_wallet_ledge.Errors.{Result, ok, ◌>>◌, fail_if, invalid_id}

abbrev pub AccountId : Type 0
AccountId = Text

abbrev pub TransactionId : Type 0
TransactionId = Text

abbrev pub JournalEntryId : Type 0
JournalEntryId = Text

abbrev pub PostingId : Type 0
PostingId = Text

abbrev pub WalletId : Type 0
WalletId = Text

abbrev pub OwnerId : Type 0
OwnerId = Text

abbrev pub HoldId : Type 0
HoldId = Text

abbrev pub EventId : Type 0
EventId = Text

-- `IsZero`.
abbrev pub is_zero : Text → Bool
is_zero = is_empty

-- `NewAccountID` to `NewEventID`.
unfoldable pub new_id : Text → Result Text
new_id id = do let clean_id = trim_space id; fail_if (is_empty clean_id) invalid_id; ok clean_id
