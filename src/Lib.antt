-- ===== src/Lib.antt =====
-- Agent-governance evidence: what the evidence companion emits, proved of its code.
--
-- The program reads one evidence document, decodes it strictly, brings it into a canonical form,
-- checks it, and writes the predicate body. The model follows internal/evidence/deployment.go and
-- internal/evidence/output.go, operation by operation. On top stand the command, the statements
-- that the demonstration signs, its signer, the demonstration itself and the checkpoint, which
-- build each case through the same pipeline:
--   Base                  shared notation, lists, Go strings (bytes), fallible results, sorting,
--                         decimal numbers
--   Evidence              the constants and the structs of the predicate body
--   Evidence/Host         the standard library and the schema validator, as a record of functions
--   Evidence/Json         the JSON values that encoding/json decodes into an interface
--   Evidence/Pattern      the four regular expressions; Digest: normalizeAgentGovernanceDigest
--   Evidence/Points       dedupeSortStrings; Cases: the order of the conformance cases;
--                         Ranks: that order by the list of the kinds
--   Evidence/Normalize    Normalize, pass by pass; its laws are in Digests, Times, Facts, Sole,
--                         Laws
--   Evidence/Fields       the field checks, validateBoundedText to validateRedactedReference;
--                         Runes: the loop over the runes of a text; Uri: the parts of a URI
--   Evidence/Extensions   validateExtensions and validateExtensionDepth
--   Evidence/Validate     Validate and its parts; CaseCheck: validateCase and what it calls
--   Evidence/Presence     validateAgentGovernanceEvidencePresence and the walk along the schema;
--                         Conforms: what a document that passes is
--   Evidence/Read         the bounded read of the evidence file
--   Evidence/Output       writeOutput over a file system
--   Evidence/Schema       which schema the emitted bytes are checked against
--   Evidence/Generate     ParseAgentGovernanceEvidence, Generate and the whole command
--   Cli                   cmd/agent-governance-evidence/main.go, from the parsed flags on
--   Demokit               internal/demokit/statements.go: the statements that are signed;
--                         Binding: the bound digest; Reproduce: the command on the completed
--                         evidence of a built case
--   Demokit/Signer        internal/demokit/signer.go: the certificates and the bundles; Chain says
--                         what a hierarchy and a verified bundle are
--   Checkpoint            cmd/checkpoint/main.go: the manifest of digests and its verification;
--                         Entries and Covers: what it records; PolicyFiles and
--                         PolicyDigest: the policy directory
--   Demo                  cmd/demo/main.go: the ten cases, from building to the verifier's answer;
--                         Steps: computations over the clock and the outside world; Case, Matched and
--                         Whole: what a success has shown of the cases in Expected; Workdir: who
--                         removes the working directory
--   Testutil              internal/testutil/autogov.go: the check of the verifier's path
--   Evidence/Tests        a sample body run through the pipeline, and the laws at that sample
--
-- A struct is a record, a pointer that may be nil an option, a Go string its bytes, an error a
-- value with its label and text. Where the code changes a body through pointers, a pass returns
-- the changed body. The extensions map is an association list with one entry for each key. An
-- instant is a number of nanoseconds. What the numbers in an error's text are is left out.
--
-- The functions of package time, net/url and encoding/json and the verdict of gojsonschema are
-- fields of the record Host, an argument of the definitions that call them. Two laws of them are
-- assumed where a result says so: a whole second that is written in a readable form is read back
-- (TimeLaws), and a decoded JSON value is written so that it decodes to itself (JsonLaws).
-- The operating system's answers are a record too (Answers in Evidence/Output), and so are the
-- encoders, the hash and the schema verdict of the demonstration (Wire in Demokit), its
-- cryptography with the clock and the source of randomness as a state (Crypto and its laws in
-- Demokit/Signer), the checkpoint's file system (System in Checkpoint), and the
-- operating system of the demonstration with the programs that it runs (System in Demo/Data).
-- Results on them assume, where they say so, that certificates are written and read as crypto/x509
-- documents it (constraints only where they are valid, an extra extension in place of the one of its
-- id, times to the second), that signatures and timestamps are made as asked and that the clock reads
-- within five minutes (CryptoLaws), that SHA-256 is written in ASCII, and that a manifest can be
-- read back (Reads in Checkpoint/Verify).
--
-- The presence walk follows references of the schema and so runs on fuel: twice the levels of the
-- document, which is enough where no definition is itself a reference, as in the embedded schema
-- (Evidence/Presence/Enough). Printing a number runs on fuel too, the number and one more; that it is
-- enough is part of Base/Decimal. Every other loop is structural.
--
-- Not modelled: the schema validator's own rules (third-party code), the text that the commands
-- print, the policy in Rego, and the producers in Python.
pub mod Base
pub mod Checkpoint
pub mod Cli
pub mod Demo
pub mod Demokit
pub mod Evidence
pub mod Testutil
