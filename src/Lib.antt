-- ===== src/Lib.antt =====
-- go-tpm2 is a library that talks to a TPM 2.0. This development models the parts of it that are
-- computations: how values are written on the wire and read back, what a response code means, what
-- selections of PCRs and names of resources are, and how the digest of an authorization policy is
-- computed.
--
-- The parts and the files that model them:
--   ResponseCode: the type ResponseCode of types_constants.go and errors.go. Fields has the accessors,
--     Errors the error types with their ResponseCode methods, Decode DecodeResponseCode, and Match the
--     methods Is and Unwrap with the tests IsTPMError to IsTPMWarning.
--   Mu: the package mu (mu/mu.go). Types has Go types and values as data, in place of reflection, Kind
--     tpmKind, Select enterUnionElem, Marshal and Unmarshal the two recursions over types, and Api the
--     exported functions over lists of arguments. Fits says which values survive the wire.
--   Pcr: PCRSelectBitmap, PCRSelect, PCRSelection and PCRSelectionList of types_structures.go. Bitmap
--     has ToPCRs and ToBitmap, Selection the wire format and the copies, Lists Merge and Remove.
--     Values has AddValues and SetValue of PCRValues (types.go), with a map as an association list,
--     and ComputePCRDigest of policyutil/pcr_digest.go.
--   Names: the type Name of types_structures.go with Handle.Type (types_handles.go) and IsValid and
--     Size of HashAlgorithmId (types_interface.go). Qualified has the qualified names of
--     objectutil/qn.go, and ComputeCpHash and ComputeNameHash of policyutil (cphash.go, namehash.go).
--   Packet: command.go, with AuthCommand and AuthResponse of types_structures.go. Areas has the
--     authorization areas, Command the command packets and Response the response packets.
--   Transport: buffer.go and runCommand of retrier.go, both in internal/transportutil, in
--     CommandBuffer, ResponseBuffer and Retrier. Busy says which response codes make runCommand submit
--     a command again, and Submits what a single submission is.
--   Auth: auth.go and paramcrypt.go, with XORObfuscation of internal/crypt. Contexts has sessions,
--     resources and sessionParam, Params the list of a command's sessions, Hmac the HMACs, Encrypt the
--     encryption of parameters, and Area the areas of a command and of its response. The theorems state
--     what these do beside what Part 1 of the TPM 2.0 Library Specification defines, written out in
--     Responses, Decrypts and Nonces.
--   Commands: the calls that take several commands. Multiple has execMultipleHelper of tpm.go, Nv
--     NVWrite and NVRead of cmds_nv.go, Sequence SequenceExecute and EventSequenceExecute of
--     cmds_hashhmac.go, Capability GetCapability of cmds_cap.go, and Properties the queries for single
--     properties, with InitProperties of tpm.go.
--   Policy: computePolicySession of policyutil/session.go (Session, Assertions), policyOrTree of
--     policyutil/or_tree.go (OrTree) and TrialAuthPolicy of util/policy.go (Trial).
-- Base passes on the library's names and has what the parts share: Boolean tests, lists over native
-- numbers, bit operations, and Outcome, which is what a Go function that returns a value and an error
-- and that may panic comes back with. Pcr.Selection uses the writers and readers of Mu, Policy uses
-- the selections of Pcr and the names of Names. Packet uses the readers of Mu, Transport the headers
-- of Packet and the response codes, Auth the areas of Packet, and Commands the types of handles.
--
-- State is passed explicitly. A session is a record of its algorithm, its digest and its flag, and
-- each assertion gives the session afterwards with its error. A call that sends commands is an
-- action on the state of the transport or of the TPM, which is a parameter, as are the commands
-- themselves: what a theorem asks of them is a named hypothesis, such as Writes and Reads of
-- Commands. An unmarshaller gives the value with the input that is left. A machine integer is a
-- natural number below its bound: the bounds are hypotheses, or the code's own tests. Go's int is
-- an integer without a bound.
--
-- Digest functions are parameters: `hash alg xs` is what alg.NewHash() makes of the bytes xs, and
-- `size alg` is alg.Size(). HMACs, KDFa, ciphers and random nonces are parameters, too. Custom
-- types of the wire format are parameters, a pair of functions.
--
-- Loops are structural recursion, except for these. The loop of newPolicyOrTree has 4 as its fuel,
-- which is enough for the 4096 digests that it accepts, and its inner loop the number of digests, of
-- which each turn takes at least one. The last loop of Remove is counted by the length of the list
-- that it starts with. GoType is a finite tree, so that the recursion of mu ends without fuel.
--
-- Not modelled: how a single command is built from its arguments and sent, devices, the goroutines
-- of a transport, policies as data, the texts of errors, and Sort of PCRSelectionList. Of mu, the
-- paths of errors, the counts of bytes, and what has been stored before an error.
pub mod Base
pub mod ResponseCode
pub mod Mu
pub mod Pcr
pub mod Names
pub mod Packet
pub mod Transport
pub mod Auth
pub mod Commands
pub mod Policy
