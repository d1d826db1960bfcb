-- ===== src/Wallet/Balance.antt =====
-- The sums of the ledger of server/utils/wallet.ts: what each row moves, and what it means that a
-- balance is the sum of what its rows moved.
use telroi_ai_app.Base.{
  ℕ, Bool, true, false, ◌≡◌, List, [], ◌∷◌, String, ◌==◌, eq_iff, arith, if◌then◌else◌,
}
use telroi_ai_app.Base.Int.{ℤ, pos, ◌+ℤ◌, neg, int_laws}
use telroi_ai_app.Base.Rows.{All, update_where}
use telroi_ai_app.Db.{insert_ledger, credit, debit, vat, LedgerKind, Wallet, LedgerRow, Db}

-- What a row of a kind moves: a sandbox debit only records what it would have cost.
abbrev pub moved : LedgerKind → Bool → ℤ → ℤ
moved credit sandbox amount = amount
moved debit true amount = pos 0
moved debit false amount = neg amount
moved vat sandbox amount = pos 0

abbrev pub effect : LedgerRow → ℤ
effect row = moved row.kind row.sandbox row.amount_minor

-- The sum of what the rows of a wallet moved.
abbrev pub ledger_total : String → List LedgerRow → ℤ
ledger_total id [] = pos 0
ledger_total id (row ∷ rows) =
    if row.wallet_id == id then effect row +ℤ ledger_total id rows else ledger_total id rows

abbrev pub WalletBalanced : List LedgerRow → Wallet → Type 0
WalletBalanced rows w = w.balance_minor ≡ ledger_total w.id rows

-- Every balance is the sum of its ledger rows.
abbrev pub IsBalanced : Db → Type 0
IsBalanced db = All (WalletBalanced db.ledger) db.wallets

-- A row posted together with its movement keeps the books balanced.
pub post-WalletBalanced :
    (row : LedgerRow) (b : ℤ) (now : ℕ) (rows : List LedgerRow) (ws : List Wallet)
    → All (WalletBalanced rows) ws
    → b ≡ effect row +ℤ ledger_total row.wallet_id rows
    → All (WalletBalanced (row ∷ rows)) (
        update_where
          (λ w. w.id == row.wallet_id)
          (λ w. record w { balance_minor = b; updated_at = now })
          ws)
post-WalletBalanced row b now rows [] h e = tt
post-WalletBalanced row b now rows (w ∷ ws) h e = (
  ground (arith, eq_iff w.id row.wallet_id, eq_iff row.wallet_id w.id),
  post-WalletBalanced row b now rows ws h.1 e,
)

-- A row that moves nothing keeps the books balanced.
pub note-WalletBalanced :
    (row : LedgerRow) (rows : List LedgerRow) (ws : List Wallet)
    → All (WalletBalanced rows) ws
    → effect row ≡ pos 0
    → All (WalletBalanced (row ∷ rows)) ws
note-WalletBalanced row rows [] h e = tt
note-WalletBalanced row rows (w ∷ ws) h e =
    (grind (int_laws, eq_iff row.wallet_id w.id), note-WalletBalanced row rows ws h.1 e)

pub note-IsBalanced :
    (row : LedgerRow) (db : Db)
    → IsBalanced db
    → effect row ≡ pos 0
    → IsBalanced (insert_ledger row db)
note-IsBalanced row db h e = note-WalletBalanced row db.ledger db.wallets h e
