-- ===== src/Tests.antt =====
-- The theorems at concrete inputs, on a small librnp that holds one key with one subkey.
mod Toy
mod ToyMail
mod MailExamples
mod UnlockExamples
mod ExportExamples
mod SearchExamples
mod SigningExamples
mod KeyExamples
mod OperationExamples
mod RingExamples
mod PluginExamples
mod LifetimeExamples
