-- ===== src/Lib.antt =====
-- Eventop: the subscription protocol, a Solana program written with Anchor.
--
-- The program (programs/subscription-protocol/src) charges recurring payments from wallets that it
-- holds for its users, and pools idle funds of the wallets in a vault that lends them. A wallet
-- buys shares of the vault; a vault keeps part of its funds in a buffer account and lends the rest
-- to another program, for fTokens.
--
-- How an instruction is modelled. Anchor first checks the accounts (the `#[account(...)]`
-- attributes) and then calls the handler on the accounts as they were read when the instruction
-- began. So each instruction has three definitions: a record of its accounts, with the struct's
-- name; `try_accounts`, which checks the signatures and then makes the checks of the attributes in the
-- order of the fields; and `handler`, the whole body. The entry point of lib.rs, with its name there, is the two in
-- sequence. An instruction returns a `Result`: an error of the program, of an account check or of
-- another program, a panic (unwrap, arithmetic of a build with overflow checks), or an `Outcome`:
-- the accounts that are written back, the state of the token program, and the events.
--
-- Balances appear twice, as on the chain: in the accounts that were read, and in the `Ledger` that
-- transfers change. The code never loads an account again, and neither does the model. Theorems
-- that relate the two say that the ledger agrees with the accounts that were read.
--
-- Files, each with the part of the program that it models (paths from
-- programs/subscription-protocol/src):
--   Errors, Events       errors.rs, events.rs
--   Runtime              what Anchor, Solana and Rust's integers provide: results and errors
--                        (Result), checked, saturating and narrowing arithmetic (Word), token
--                        accounts (Token), account checks and the parameter `Solana` (Anchor), and
--                        the laws of that parameter (Laws)
--   State                state/*.rs, a file for each; Agreement compares the methods with the
--                        computations that the instructions make
--   Utils                utils/calculations.rs (Calculations), utils/vault_operations.rs
--                        (VaultOperations, and JupiterLend for the lending calls). Encoding has the
--                        bytes of numbers, Valuation the value of a vault, Lending the law of
--                        the lending calls
--   YieldOps             instructions/yield_ops; the four structs of accounts are equal, and one
--                        record (Accounts) stands for them. Request has the four as one operation,
--                        RoundTrip a purchase of shares and their sale, Exit when a sale goes
--                        through, and Dilution a deposit while funds are lent
--   Protocol             instructions/protocol
--   Wallet               instructions/wallet
--   VaultManagement      instructions/vault_management
--   Subscription         instructions/subscription
--   Addresses            the accounts made at derived addresses, against the later checks
--   Pool                 a vault with the wallets of its mint, under any sequence of the instructions
--                        that touch either (Pool), the balance of their shares (Pool/Balance),
--                        the book of shares that the instructions refine (Pool/Book), and what all
--                        shares together can be redeemed for (Pool/Solvency). A payment is given
--                        the pool's vault or none
--   Funds                the instructions of lib.rs that transfer tokens, as one operation on the
--                        balances (Funds), their transfers (Funds/Moves), whose balances fall
--                        (Funds/Conservation), and over a sequence of them the price of a share
--                        (Funds/Price) and the deposits on record (Funds/Deposits). A rebalancing is
--                        not among them: it moves tokens only through the lending program
--   Registry             the wallets, subscriptions and session tokens, under any sequence of the
--                        instructions that change one of them (Registry): the counts of subscriptions
--                        (Counts), the amounts spent (Spending), the session tokens (Tokens), what
--                        subscribers have signed (Consent), the life of a subscription that the
--                        instructions refine (Lifecycle), and leaving one (Release)
--   World                the program as a whole, `mod subscription_protocol` of lib.rs: all its accounts
--                        and what it reads, and its instructions as messages that name accounts by
--                        key (World); the accounts of each as they are loaded (Load, Accounts); running
--                        a message, transactions and histories (Exec). A message that goes through is
--                        one of the steps of Steps (Runs), from accounts as they are stored (Loaded),
--                        and what every step keeps is kept by every history (Keeps). Then, over all
--                        histories: the steps of Registry (Refinement), what accounts keep (Kept,
--                        Identity, Grown, Persistence), what a new account holds (Made, Opened), how
--                        accounts refer to each other (Links, Fits, Linked), the shares of each mint
--                        (Shares, Balance), joining a plan (Joining), paying for any subscription
--                        (Payments) and leaving it (Leaving), and whose consent it takes
--                        to lower a balance (Consent, Ledgers, Parties, Debits) or to change a wallet
--                        or a vault (Written, Allowed, AllowedSubscriptions, Changes)
--   Tests                a small chain that satisfies the laws, and runs at concrete inputs
--   Base                 the standard library's names, lists, association lists and integers
--
-- The world. A transaction has signers, a time and a list of commands: messages to this program, and
-- calls of other programs, which may change the token accounts and other programs' bytes in any way
-- but none of this program's accounts. It is committed as a whole or not at all. An account that must
-- exist and does not fails the instruction before its checks; the accounts of each type are kept apart,
-- which the type's discriminator and the tags of the seeds do on the chain. A message is one of lib.rs's
-- entry points; the four yield instructions, with equal accounts, are one message with a `Request`.
--
-- What is a parameter. The token program, the derivation of addresses and the lending program are
-- not in the repository: they are the fields of `Solana` (Runtime/Anchor), on which theorems assume,
-- where they need it, the documented behaviour in `IsSolana` (Runtime/Laws): a transfer moves the
-- amount between two accounts of one mint and changes no third account, it succeeds if it is signed,
-- covered and does not overflow, a bump that is found gives the address, and a seed has at most 32
-- bytes. Of the lending program only VaultManagement/Target assumes anything: that it takes and pays
-- the amounts that it is told (`IsLending` in Utils/Lending). The clock's time is an argument, in
-- World a field of the transaction. World/Balance assumes that no two mints have a vault at one address (`VaultsApart`),
-- which the hash behind derived addresses gives.
--
-- Numbers. Unsigned integers are natural numbers, with the checks, the saturation and the narrowing
-- of the code written out; signed ones are integers, whose sums and differences panic out of range.
-- Keys are natural numbers, which are only compared; strings are lists of bytes. No definition runs
-- on fuel: the program has no loops.
--
-- Not modelled: rent, space and the LEN constants; `mut` and the other properties of an account that
-- only the runtime looks at; the check that an account has its type, which the types of the records
-- stand for; log messages; scripts, tests and migrations; and older_version/lib.rs, which is
-- commented out as a whole.
pub mod Base
pub mod Errors
pub mod Runtime
pub mod Events
pub mod State
pub mod Outcome
pub mod Utils
pub mod YieldOps
pub mod Protocol
pub mod Wallet
pub mod VaultManagement
pub mod Subscription
pub mod Addresses
pub mod Pool
pub mod Funds
pub mod Registry
pub mod World
pub mod Tests
